-- ===== src/Program/Options.antt =====
-- core/program_options/program_options.h. A text is the list of its bytes.
use lproxy.Base.{
  ℕ, ◌-◌, ◌==◌, ltb, if◌then◌else◌, Bool, List, [], ◌∷◌, ◌++◌, length, replicate, codes, bytes_eq,
  contains, Outcome, ok, throw, fault, ◌>>=◌,
}

pub data ParameterError : Type 0 where
  parameter_error : List ℕ → ParameterError

pub record OptsHelp : Type 0 where
  pub options : List ℕ
  pub help : List ℕ

pub record ProgramOptions : Type 0 where
  pub usage : List ℕ
  pub max_options_str_length : ℕ
  pub helpmessage : List OptsHelp
  pub examples : List (List ℕ)
  pub argc : ℕ
  pub argv : List (List ℕ)

-- `m_argc` has no value before `store`.
unfoldable pub new_options : List ℕ → ProgramOptions
new_options usage = record {
  usage = usage;
  max_options_str_length = 0;
  helpmessage = [];
  examples = [];
  argc = 0;
  argv = [];
}

unfoldable pub add_option : List ℕ → List ℕ → ProgramOptions → ProgramOptions
add_option options message po = record po {
  max_options_str_length =
      if ltb po.max_options_str_length (length options)
      then length options
      else po.max_options_str_length;
  helpmessage = po.helpmessage ++ record { options = options; help = message } ∷ [];
}

unfoldable pub example : List ℕ → ProgramOptions → ProgramOptions
example message po = record po { examples = po.examples ++ message ∷ [] }

unfoldable pub store : List (List ℕ) → ProgramOptions → ProgramOptions
store argv po = record po { argc = length argv; argv = po.argv ++ argv }

unfoldable pub count : ProgramOptions → List ℕ → Bool
unfolding contains
count po option = contains po.argv option

unfoldable pub empty : ProgramOptions → Bool
empty po = po.argc == 1

unfoldable pub get_from : List (List ℕ) → List ℕ → Outcome ParameterError (List ℕ)
unfolding bytes_eq
get_from [] option = ok []
get_from (word ∷ []) option = if bytes_eq option word then throw (parameter_error option) else ok []
get_from (word ∷ value ∷ rest) option =
    let later = get_from (value ∷ rest) option in if bytes_eq option word then ok value else later

unfoldable pub get : ProgramOptions → List ℕ → Outcome ParameterError (List ℕ)
unfolding get_from
get po option = get_from po.argv option

-- `getline`, until the end of the text.
unfoldable pub lines : List ℕ → List (List ℕ)
lines [] = []
lines (c ∷ text) =
    if c == 10
    then [] ∷ lines text
    else (elim (lines text) [ [] ↦ (c ∷ []) ∷ [] | line ∷ others ↦ (c ∷ line) ∷ others ])

-- `std::left << std::setw(width)`.
unfoldable pub padded : ℕ → List ℕ → List ℕ
padded width text = text ++ replicate (width - length text) 32

unfoldable pub more_lines : ℕ → List (List ℕ) → List ℕ
unfolding padded
more_lines width [] = []
more_lines width (line ∷ rest) =
    codes "  " ++ padded width (codes " ") ++ codes "  " ++ line ++ 10 ∷ more_lines width rest

unfoldable pub show_option : ℕ → OptsHelp → Outcome ParameterError (List ℕ)
unfolding lines padded more_lines
show_option width v = elim (lines v.help) [
  | [] ↦ fault
  | line ∷ rest ↦
      ok (codes "  " ++ padded width v.options ++ codes "  " ++ line ++ 10 ∷ more_lines width rest)
]

unfoldable pub show_options : ℕ → List OptsHelp → Outcome ParameterError (List ℕ)
unfolding show_option
show_options width [] = ok []
show_options width (v ∷ rest) = do
  first ← show_option width v
  others ← show_options width rest
  ok (first ++ others)

unfoldable pub show_examples : List (List ℕ) → List ℕ
show_examples [] = []
show_examples (v ∷ rest) = codes "  " ++ v ++ 10 ∷ show_examples rest

unfoldable pub show_help : List ℕ → ProgramOptions → Outcome ParameterError (List ℕ)
unfolding show_options show_examples bytes_eq
show_help title po = do
  options ← show_options po.max_options_str_length po.helpmessage
  ok (
      (if bytes_eq title [] then [] else (title ++ 10 ∷ 10 ∷ []))
      ++ codes "Usage: "
      ++ po.usage
      ++ 10 ∷ 10 ∷ codes "Options: "
      ++ 10 ∷ options
      ++ (elim po.examples [
        | [] ↦ []
        | _ ↦ 10 ∷ codes "Examples:" ++ 10 ∷ show_examples po.examples
      ]))
