-- ===== src/Shell.antt =====
-- The parser of the shell, src/user/sh.c.
--
-- A pointer into the line is the rest of the line from there on, so the end `es` is the empty list.
-- The rounds of a loop and the nesting of lines are fuel, of which the length of the line is enough.
pub mod Tokens
pub mod Progress
pub mod Ending
pub mod Words
mod Tests
use a3team_os.Base.{
  ℕ, zero, suc, ◌+◌, ◌-◌, Bool, true, false, not, ◌&&◌, ◌||◌, List, [], ◌∷◌, ◌++◌, ◌==◌, leb,
  if◌then◌else◌, length, set,
}

-- `strchr` as a test.
abbrev pub strchr : List ℕ → ℕ → Bool
strchr [] c = false
strchr (x ∷ xs) c = (x == c) || strchr xs c

-- " \t\r\n\v" and "<|>&;()"
abbrev pub whitespace : List ℕ
whitespace = 32 ∷ 9 ∷ 13 ∷ 10 ∷ 11 ∷ []

abbrev pub symbols : List ℕ
symbols = 60 ∷ 124 ∷ 62 ∷ 38 ∷ 59 ∷ 40 ∷ 41 ∷ []

abbrev pub skip_space : List ℕ → List ℕ
skip_space [] = []
skip_space (c ∷ cs) = let rest = skip_space cs in if strchr whitespace c then rest else c ∷ cs

abbrev pub skip_word : List ℕ → List ℕ
skip_word [] = []
skip_word (c ∷ cs) =
    let rest = skip_word cs in
    if not (strchr whitespace c) && not (strchr symbols c) then rest else c ∷ cs

-- A word is the places where it begins and where it ends.
pub record Word : Type 0 where
  pub q : List ℕ
  pub eq : List ℕ

-- What `gettoken` returns and where it leaves `*ps`.
pub record Token : Type 0 where
  pub tok : ℕ
  pub word : Word
  pub rest : List ℕ

-- '>' and ">>", which is the token '+'.
abbrev pub after_greater : List ℕ → ℕ × List ℕ
after_greater [] = (62, [])
after_greater (c ∷ cs) = if c == 62 then (43, cs) else (62, c ∷ cs)

-- The `switch` of `gettoken`; 'a' is the token of a word.
abbrev pub scan : List ℕ → ℕ × List ℕ
scan [] = (0, [])
scan (c ∷ cs) =
    if strchr (124 ∷ 40 ∷ 41 ∷ 59 ∷ 38 ∷ 60 ∷ []) c
    then (c, cs)
    else if c == 62
    then after_greater cs
    else (97, skip_word (c ∷ cs))

unfoldable pub gettoken : List ℕ → Token
gettoken s =
    let s1 = skip_space s in
    let (tok, s2) = scan s1 in
    record { tok = tok; word = record { q = s1; eq = s2 }; rest = skip_space s2 }

abbrev pub starts : List ℕ → List ℕ → Bool
starts toks [] = false
starts toks (c ∷ cs) = strchr toks c

-- Whether the next character is one of `toks`, and where `peek` leaves `*ps`.
unfoldable pub peek : (toks : List ℕ) → List ℕ → Bool × List ℕ
peek toks s = let s1 = skip_space s in (starts toks s1, s1)

-- `struct redircmd` without its command.
pub record Redir : Type 0 where
  pub file : Word
  pub mode : ℕ
  pub fd : ℕ

-- `struct cmd` and its five kinds.
pub data Cmd : Type 0 where
  exec : (argv : List Word) → Cmd
  redir : Cmd → Redir → Cmd
  pipe : Cmd → Cmd → Cmd
  list : Cmd → Cmd → Cmd
  back : Cmd → Cmd

pub data Panic : Type 0 where
  missing_file : Panic
  missing_close : Panic
  parse_block : Panic
  syntax : Panic
  too_many_args : Panic

-- How a function of the parser ends: with a result, where it leaves `*ps`, or with a panic.
pub data Result {ℓ} (A : Type ℓ) : Type ℓ where
  ok : A → (rest : List ℕ) → Result A
  panics : Panic → Result A
  out_of_fuel : Result A

abbrev pub after {ℓ ℓ'} : {A : Type ℓ} {B : Type ℓ'} → Result A → (A → List ℕ → Result B) → Result B
after (ok a s) k = k a s
after (panics p) k = panics p
after out_of_fuel k = out_of_fuel

abbrev pub o_rdonly : ℕ
o_rdonly = 0

-- `O_WRONLY|O_CREATE`
abbrev pub o_write : ℕ
o_write = 513

abbrev pub redirection : (tok : ℕ) → Word → Redir
redirection tok w =
    if tok == 60
    then record { file = w; mode = o_rdonly; fd = 0 }
    else record { file = w; mode = o_write; fd = 1 }

-- `parseredirs`: the redirections that it puts around its command, the innermost one first.
unfoldable pub parseredirs : (n : ℕ) → List Redir → List ℕ → Result (List Redir)
parseredirs zero rs s = out_of_fuel
parseredirs (suc n) rs s =
    let (more, s1) = peek (60 ∷ 62 ∷ []) s in
    let t = gettoken s1 in
    let file = gettoken t.rest in
    let rest = parseredirs n (rs ++ (redirection t.tok file.word ∷ [])) file.rest in
    if not more then ok rs s1 else if not (file.tok == 97) then panics missing_file else rest

abbrev pub wrap : Cmd → List Redir → Cmd
wrap c [] = c
wrap c (r ∷ rs) = wrap (redir c r) rs

-- The loop of `parseexec`, with the arguments and the redirections so far.
unfoldable pub parse_args : (n : ℕ) → List Word → List Redir → List ℕ → Result Cmd
parse_args zero argv rs s = out_of_fuel
parse_args (suc n) argv rs s =
    let (stop, s1) = peek (124 ∷ 41 ∷ 38 ∷ 59 ∷ []) s in
    let t = gettoken s1 in
    let argv' = argv ++ (t.word ∷ []) in
    let rest = after (parseredirs (suc (length t.rest)) rs t.rest) (parse_args n argv') in
    if stop
    then ok (wrap (exec argv) rs) s1
    else if t.tok == 0
    then ok (wrap (exec argv) rs) t.rest
    else if not (t.tok == 97)
    then panics syntax
    else if leb 10 (length argv')
    then panics too_many_args
    else rest

-- `parseblock`, where `line` is `parseline`.
abbrev pub close_block : Cmd → List ℕ → Result Cmd
close_block c s =
    let (closed, s1) = peek (41 ∷ []) s in
    let s2 = (gettoken s1).rest in
    if not closed
    then panics missing_close
    else after (parseredirs (suc (length s2)) [] s2) (λ rs s3. ok (wrap c rs) s3)

unfoldable pub parseblock : (line : List ℕ → Result Cmd) → List ℕ → Result Cmd
parseblock line s =
    let (opens, s1) = peek (40 ∷ []) s in
    if not opens then panics parse_block else after (line (gettoken s1).rest) close_block

unfoldable pub parseexec : (line : List ℕ → Result Cmd) → List ℕ → Result Cmd
parseexec line s =
    let (block, s1) = peek (40 ∷ []) s in
    if block
    then parseblock line s1
    else after (parseredirs (suc (length s1)) [] s1)
        (λ rs s2. parse_args (suc (length s2)) [] rs s2)

-- The end of `parsepipe`, where `pipeline` is `parsepipe` itself.
abbrev pub pipe_rest : (pipeline : List ℕ → Result Cmd) → Cmd → List ℕ → Result Cmd
pipe_rest pipeline c s =
    let (more, s1) = peek (124 ∷ []) s in
    if more then after (pipeline (gettoken s1).rest) (λ d s2. ok (pipe c d) s2) else ok c s1

-- `parsepipe`, with the number of commands that it may take.
unfoldable pub parsepipe : (line : List ℕ → Result Cmd) → (n : ℕ) → List ℕ → Result Cmd
parsepipe line zero s = out_of_fuel
parsepipe line (suc n) s = after (parseexec line s) (pipe_rest (parsepipe line n))

-- The loop of `parseline` over '&'.
unfoldable pub parse_backs : (n : ℕ) → Cmd → List ℕ → Result Cmd
parse_backs zero c s = out_of_fuel
parse_backs (suc n) c s =
    let (more, s1) = peek (38 ∷ []) s in
    let rest = parse_backs n (back c) (gettoken s1).rest in if more then rest else ok c s1

-- The end of `parseline`: the rest of a list of commands.
abbrev pub parse_rest : (line : List ℕ → Result Cmd) → Cmd → List ℕ → Result Cmd
parse_rest line c s =
    let (more, s1) = peek (59 ∷ []) s in
    if more then after (line (gettoken s1).rest) (λ d s2. ok (list c d) s2) else ok c s1

unfoldable pub parseline : (n : ℕ) → List ℕ → Result Cmd
parseline zero s = out_of_fuel
parseline (suc n) s =
    after
      (after (parsepipe (parseline n) (suc (length s)) s)
        (λ c s1. parse_backs (suc (length s1)) c s1))
      (parse_rest (parseline n))

-- The end of `parsecmd`, before it ends the words with a 0.
abbrev pub leftovers : Cmd → List ℕ → Result Cmd
leftovers c [] = ok c []
leftovers c (x ∷ xs) = panics syntax

abbrev pub finish : Cmd → List ℕ → Result Cmd
finish c s = leftovers c (peek [] s).1

unfoldable pub parsecmd : List ℕ → Result Cmd
parsecmd s = after (parseline (suc (length s)) s) finish

-- `*eq = 0`, in the line `buf`; at the end of the line there is a 0 already.
abbrev pub end_word : List ℕ → Word → List ℕ
end_word buf w = set buf (length buf - length w.eq) 0

abbrev pub end_words : List ℕ → List Word → List ℕ
end_words buf [] = buf
end_words buf (w ∷ ws) = end_words (end_word buf w) ws

unfoldable pub nulterminate : Cmd → List ℕ → List ℕ
nulterminate (exec argv) buf = end_words buf argv
nulterminate (redir c r) buf = end_word (nulterminate c buf) r.file
nulterminate (pipe c d) buf = nulterminate d (nulterminate c buf)
nulterminate (list c d) buf = nulterminate d (nulterminate c buf)
nulterminate (back c) buf = nulterminate c buf
