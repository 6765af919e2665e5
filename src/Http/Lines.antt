-- ===== src/Http/Lines.antt =====
-- Lines: what splitLines makes of a text, and how the reader takes a line.
use mathlib.Core.List.{append_assoc, append-nil}
use sse_eventbus_go.Prelude.{
  ℕ, false, List, [], ◌∷◌, ◌++◌, ◌≡◌, refl, ap, ◌∙◌, arith, ◌==◌, Str, Bool-cases, inl, inr,
}
use sse_eventbus_go.Event.{line_breaks}
use sse_eventbus_go.Event.Valid.{Avoids, Free}
use sse_eventbus_go.Http.{crlf_to_lf, cr_to_lf, split_lf, split_lines, onto_first}
use sse_eventbus_go.Http.Stream.{Reader, process_line, read}

-- A text with every line ending turned into LF.
pub normalize_breaks : Str → Str
unfolding cr_to_lf crlf_to_lf
normalize_breaks value = cr_to_lf (crlf_to_lf value)

-- The lines, each with an LF behind it.
unfoldable pub unlines : List Str → Str
unlines [] = []
unlines (line ∷ lines) = line ++ 10 ∷ unlines lines

abbrev pub AllFree : List Str → Type 0
AllFree [] = Unit {0}
AllFree (line ∷ lines) = Free line_breaks line × AllFree lines

nil_not_ended : (s : Str) → ◌≡◌ {A = Str} [] (s ++ 10 ∷ []) → ⊥
nil_not_ended [] e = cc
nil_not_ended (c ∷ s) e = cc

unlines-onto_first :
    (c : ℕ) (lines : List Str) (s : Str)
    → unlines lines ≡ s ++ 10 ∷ []
    → unlines (onto_first c lines) ≡ c ∷ s ++ 10 ∷ []
unfolding unlines
unlines-onto_first c [] s e = absurd (nil_not_ended s e)
unlines-onto_first c (line ∷ lines) s e = ap (◌∷◌ c) e

-- Joined again, the lines are the text.
pub unlines-split_lf : (s : Str) → unlines (split_lf s) ≡ s ++ 10 ∷ []
unfolding split_lf unlines
unlines-split_lf [] = refl
unlines-split_lf (c ∷ s) = elim (Bool-cases (c == 10)) [
  | inl lf ↦ let e : c ≡ 10 = ground arith in rw lf (cc (unlines-split_lf s))
  | inr other ↦ rw other (unlines-onto_first c (split_lf s) s (unlines-split_lf s))
]

-- No CR is left.
pub no_cr : (s : Str) → Free (13 ∷ []) (cr_to_lf s)
unfolding cr_to_lf
no_cr [] = tt
no_cr (c ∷ s) = (ground arith, no_cr s)

AllFree-onto_first :
    (c : ℕ) (lines : List Str) → Avoids c line_breaks → AllFree lines → AllFree (onto_first c lines)
AllFree-onto_first c [] a f = ((a, tt), tt)
AllFree-onto_first c (line ∷ lines) a f = ((a, f.0), f.1)

split_lf-AllFree : (s : Str) → Free (13 ∷ []) s → AllFree (split_lf s)
unfolding split_lf
split_lf-AllFree [] f = (tt, tt)
split_lf-AllFree (c ∷ s) f = elim (Bool-cases (c == 10)) [
  | inl lf ↦ rw lf (tt, split_lf-AllFree s f.1)
  | inr other ↦ rw other (AllFree-onto_first c (split_lf s) (ground arith) (split_lf-AllFree s f.1))
]

pub split_lines-AllFree : (value : Str) → AllFree (split_lines value)
unfolding split_lines
split_lines-AllFree value = split_lf-AllFree _ (no_cr (crlf_to_lf value))

pub unlines-split_lines :
    (value : Str) → unlines (split_lines value) ≡ normalize_breaks value ++ 10 ∷ []
unfolding split_lines normalize_breaks
unlines-split_lines value = unlines-split_lf (cr_to_lf (crlf_to_lf value))

-- A line with no line break of its own is taken whole.
pub read-line :
    (line cur rest : Str) (r : Reader)
    → Free line_breaks line
    → read (line ++ 10 ∷ rest) cur false r ≡ read rest [] false (process_line (cur ++ line) r)
unfolding read
read-line [] cur rest r f = rw (append-nil cur)
read-line (c ∷ line) cur rest r f =
    let cr : (c == 13) ≡ false = ground arith in
    let lf : (c == 10) ≡ false = ground arith in
    rw (read, cr, lf)
      (read-line line (cur ++ c ∷ []) rest r f.1
        ∙ ap (λ l. read rest [] false (process_line l r)) (append_assoc cur (c ∷ []) line))
