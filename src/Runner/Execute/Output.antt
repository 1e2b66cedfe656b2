-- ===== src/Runner/Execute/Output.antt =====
-- helpers/test-runner-service/src/test_runner_service/worker.py: what is read from the output of `docker`.
use pytest_hardware_template.Prelude.{
  ℕ, String, Bool, Option, none, some, List, [], ◌∷◌, ◌||◌, ◌&&◌, not, ◌==◌, nat_eq, leb,
  if◌then◌else◌, any_char, has_prefix, split_by, rstrip, is_space,
}

-- `text.splitlines()[-1]` of a stripped text
abbrev pub is_line_break : ℕ → Bool
is_line_break c =
    (leb 10 c && leb c 13)
    || (leb 28 c && leb c 30)
    || nat_eq c 0x85
    || nat_eq c 0x2028
    || nat_eq c 0x2029

unfoldable pub last_line : String → String
unfolding any_char
last_line String.[] = String.[]
last_line (String.◌∷◌ c s) =
    let rest = last_line s in
    if any_char is_line_break (String.◌∷◌ c s) then rest else String.◌∷◌ c s

-- The regular expression `https?://[^\s]+` matches at most once in a word.
abbrev pub is_url : String → Bool
is_url s =
    (has_prefix s "http://" && not (s == "http://"))
    || (has_prefix s "https://" && not (s == "https://"))

unfoldable pub url_in : String → Option String
url_in String.[] = none
url_in (String.◌∷◌ c s) =
    let rest = url_in s in if is_url (String.◌∷◌ c s) then some (String.◌∷◌ c s) else rest

unfoldable pub last_url : List String → Option String
last_url [] = none
last_url (word ∷ words) = elim (last_url words) [ none ↦ url_in word | some url ↦ some url ]

-- the characters of `".,;)\"]'"`
abbrev pub is_url_end : ℕ → Bool
is_url_end c =
    nat_eq c b'.'
    || nat_eq c b','
    || nat_eq c b';'
    || nat_eq c b')'
    || nat_eq c 34
    || nat_eq c b']'
    || nat_eq c 39

unfoldable pub published_report_url : String → Option String
unfolding last_url url_in split_by rstrip
published_report_url output = elim (last_url (split_by is_space output)) [
  | none ↦ none
  | some url ↦ some (rstrip is_url_end url)
]
