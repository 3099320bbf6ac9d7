-- ===== src/Wrappers/Output.antt =====
-- wrappers/utils.py: the texts that are made of, and read from, the output of a tool.
use tls_interop_framework.Prelude.{
  Bool, List, Option, [], any, if◌then◌else◌, is_empty, is_some, keep, leb, none, not, some, suc, ℕ,
  ℤ, ◌++◌, ◌==◌, ◌||◌, ◌∷◌,
}
use tls_interop_framework.Python.Args.{text_of_int}
use tls_interop_framework.Python.Text.{
  Text, is_space, join, lit, lower, lstrip, or_text, rstrip, starts_with, strip,
}

-- `x.rstrip() or default`
rstrip_or : Text → Text → Text
rstrip_or t default = or_text (rstrip t) default

command_line : Text → Text
command_line cmd =
    if is_empty cmd
    then lit "CMD: (unknown)"
    else if starts_with cmd (lit "CMD:")
    then cmd
    else lit "CMD: " ++ cmd

exit_line : Option ℤ → Text
exit_line none = lit "Exit code: (running)"
exit_line (some code) = lit "Exit code: " ++ text_of_int code

-- `stderr` is always empty here: it is merged into the standard output.
unfoldable pub format_cli_debug_logs : Text → Option ℤ → Text → Text
unfolding rstrip_or command_line exit_line
format_cli_debug_logs cmd exit_code stdout = join (10 ∷ []) (
    command_line (strip cmd)
    ∷ exit_line exit_code
    ∷ lit "--- stdout ---"
    ∷ rstrip_or stdout (lit "(empty)")
    ∷ lit "--- stderr ---"
    ∷ lit "(stderr merged into stdout; see stdout above)"
    ∷ [])

-- `"\n".join(x for x in (a, b) if x.strip()).strip()`
unfoldable pub merged_output : Text → Text → Text
merged_output a b = strip (join (10 ∷ []) (keep (λ x. not (is_empty (strip x))) (a ∷ b ∷ [])))

-- The pieces of the patterns for a Hello Retry Request: a word, `\s*`, `\s+`, and `[^\]]+`.
pub data Piece : Type 0 where
  word : Text → Piece
  spaces some_spaces not_bracket : Piece

unfoldable pub after_word : Text → Text → Option Text
after_word [] s = some s
after_word (c ∷ w) [] = none
after_word (c ∷ w) (d ∷ s) = if c == d then after_word w s else none

-- What follows the longest run of characters other than a closing bracket.
skip_to_bracket : Text → Text
skip_to_bracket [] = []
skip_to_bracket (c ∷ s) = let rest = skip_to_bracket s in if c == b']' then c ∷ s else rest

-- A repeated class is followed by a word that it cannot match, so the longest run decides.
match_piece : Piece → Text → Option Text
unfolding after_word skip_to_bracket
match_piece (word w) s = after_word w s
match_piece spaces s = some (lstrip s)
match_piece some_spaces [] = none
match_piece some_spaces (c ∷ s) = if is_space c then some (lstrip s) else none
match_piece not_bracket [] = none
match_piece not_bracket (c ∷ s) = if c == b']' then none else some (skip_to_bracket s)

-- What follows the pattern at the start of the text.
unfoldable pub match_pieces : List Piece → Text → Option Text
unfolding match_piece
match_pieces [] s = some s
match_pieces (p ∷ ps) s = elim (match_piece p s) [ none ↦ none | some rest ↦ match_pieces ps rest ]

-- `re.search` of a pattern.
unfoldable pub search_pieces : List Piece → Text → Bool
search_pieces ps [] = is_some (match_pieces ps [])
search_pieces ps (c ∷ s) = is_some (match_pieces ps (c ∷ s)) || search_pieces ps s

-- At how many places the pattern matches. Two matches of the pattern counted here cannot overlap.
unfoldable pub count_matches : List Piece → Text → ℕ
count_matches ps [] = 0
count_matches ps (c ∷ s) =
    let rest = count_matches ps s in if is_some (match_pieces ps (c ∷ s)) then suc rest else rest

abbrev hrr_output_patterns : List (List Piece)
hrr_output_patterns =
    (word (lit "hello") ∷ spaces ∷ word (lit "retry") ∷ spaces ∷ word (lit "request") ∷ [])
    ∷ (word (lit "helloretryrequest") ∷ [])
    ∷ (word (lit "hello_retry_request") ∷ [])
    ∷ (word (lit "received") ∷ some_spaces ∷ word (lit "hrr") ∷ [])
    ∷ (word (lit "retry") ∷ some_spaces ∷ word (lit "request") ∷ [])
    ∷ []

abbrev handshake_pattern : List Piece
handshake_pattern =
    word (lit "handshake")
    ∷ spaces
    ∷ word (lit "[")
    ∷ spaces
    ∷ word (lit "length")
    ∷ some_spaces
    ∷ not_bracket
    ∷ word (lit "]")
    ∷ spaces
    ∷ word (lit ",")
    ∷ spaces
    ∷ word (lit "clienthello")
    ∷ []

-- `re.IGNORECASE` is a match in lower case.
unfoldable pub hrr_detected_in_cli_output : Text → Bool
hrr_detected_in_cli_output output =
    let blob = lower (strip output) in
    any (λ ps. search_pieces ps blob) hrr_output_patterns
    || leb 2 (count_matches (word (lit "write client hello") ∷ []) blob)
    || leb 2 (count_matches (word (lit "read client hello") ∷ []) blob)
    || leb 2 (count_matches handshake_pattern blob)
