-- ===== src/Shim/Lines.antt =====
-- What `bounded_read_line` of shim/proxy/helpers.rs reads, in whatever chunks the bytes come.
use thoughtgate.Base.{
  ℕ, zero, suc, ◌+◌, ◌≤◌, Bool, true, false, Option, none, some, List, [], ◌∷◌, ◌++◌, ok, err, any,
  take, drop, length, length-append, length-take, ltb, ◌==◌, ◌≡◌, refl, ◌∙◌, ap, sym, inl, inr, ◌⊎◌,
  subst, Bool-cases, arith, if◌then◌else◌,
}
use thoughtgate.Shim.{
  LineReader, Chunk, bytes, failed, Line, is_message, after_first, push, split_lines,
  detect_smuggling, position, consume, end_line, next_chunk, read_line, bounded_read_line,
}
use mathlib.Core.List.{append_assoc}

abbrev pub presented : List Chunk → List ℕ
presented [] = []
presented (bytes bs ∷ chunks) = bs ++ presented chunks
presented (failed e ∷ chunks) = presented chunks

-- The buffer is within the limit however the reading ends. A line that is read has the length that is
-- returned, holds a newline nowhere but at its end, and is followed by what is left to read.
abbrev pub Keeps : LineReader → ℕ → List ℕ → Line → Type 0
Keeps r max_bytes all (rest, buf, err e) = length buf ≤ max_bytes
Keeps r max_bytes all (rest, buf, ok n) =
    (length buf ≤ max_bytes)
    × (n ≡ length buf)
    × (detect_smuggling r buf ≡ false)
    × (buf ++ presented rest ≡ all)

after_first-push : (b : ℕ) (l : List (List ℕ)) → after_first (push b l) ≡ after_first l
after_first-push b [] = refl
after_first-push b (s ∷ segments) = refl

no_newline :
    (x : ℕ) (xs : List ℕ) → position (x ∷ xs) ≡ none → (x == 10 ≡ false) × (position xs ≡ none)
unfolding position
no_newline x xs h = ground arith

split_lines-cons :
    (x : ℕ) (xs : List ℕ)
    → x == 10 ≡ false
    → after_first (split_lines (x ∷ xs)) ≡ after_first (split_lines xs)
unfolding split_lines
split_lines-cons x xs h = rw (h, after_first-push)

-- A buffer without a newline adds no segment to what follows it.
after_first-append :
    (xs ys : List ℕ)
    → position xs ≡ none
    → after_first (split_lines (xs ++ ys)) ≡ after_first (split_lines ys)
after_first-append [] ys h = refl
after_first-append (x ∷ xs) ys h =
    let step = no_newline x xs h in
    split_lines-cons x (xs ++ ys) step.0 ∙ after_first-append xs ys step.1

position-append :
    (xs ys : List ℕ) → position xs ≡ none → position ys ≡ none → position (xs ++ ys) ≡ none
unfolding position
position-append [] ys h k = k
position-append (x ∷ xs) ys h k = ground (arith, position-append xs ys)

after_first-take :
    (xs : List ℕ) (p : ℕ)
    → position xs ≡ some p
    → after_first (split_lines (take (suc p) xs)) ≡ [] ∷ []
unfolding position split_lines
after_first-take [] p h = ground arith
after_first-take (x ∷ xs) zero h = ground (arith, Bool-cases (x == 10))
after_first-take (x ∷ xs) (suc p) h = grind (arith, after_first-take xs p, after_first-push)

take-drop : (n : ℕ) (xs : List ℕ) → take n xs ++ drop n xs ≡ xs
take-drop zero xs = refl
take-drop (suc n) [] = refl
take-drop (suc n) (x ∷ xs) = ap (λ xs. x ∷ xs) (take-drop n xs)

position-lt : (xs : List ℕ) (p : ℕ) → position xs ≡ some p → suc p ≤ length xs
unfolding position
position-lt [] p h = ground arith
position-lt (x ∷ xs) zero h = ground arith
position-lt (x ∷ xs) (suc p) h = ground (arith, position-lt xs p)

presented-consume :
    (n : ℕ) (chunk : List ℕ) (chunks : List Chunk)
    → presented (consume n chunk chunks) ≡ drop n chunk ++ presented chunks
presented-consume zero [] chunks = refl
presented-consume zero (b ∷ chunk) chunks = refl
presented-consume (suc n) [] chunks = refl
presented-consume (suc n) (b ∷ chunk) chunks = presented-consume n chunk chunks

detect_smuggling-one :
    (r : LineReader) (buf : List ℕ)
    → (after_first (split_lines buf) ≡ []) ⊎ (after_first (split_lines buf) ≡ [] ∷ [])
    → detect_smuggling r buf ≡ false
unfolding detect_smuggling
detect_smuggling-one r buf (inl h) = ap (any (is_message r)) h
detect_smuggling-one r buf (inr h) = ap (any (is_message r)) h

after_first-none : (xs : List ℕ) → position xs ≡ none → after_first (split_lines xs) ≡ []
unfolding split_lines
after_first-none [] h = refl
after_first-none (x ∷ xs) h =
    let step = no_newline x xs h in split_lines-cons x xs step.0 ∙ after_first-none xs step.1

-- Both branches of a test, with its outcome.
if-either {ℓ κ} :
    {A : Type ℓ} (P : A → Type κ) (b : Bool) {x y : A}
    → (b ≡ true → P x)
    → (b ≡ false → P y)
    → P (if b then x else y)
if-either P true f g = f refl
if-either P false f g = g refl

not_over : (a b : ℕ) → ltb a b ≡ false → b ≤ a
not_over a b h = ground arith

module _ (r : LineReader) (max_bytes : ℕ) where
  -- The end of the input, where the buffer has no newline.
  ended-Keeps :
      (total : ℕ) (buf : List ℕ) (chunks : List Chunk)
      → total ≡ length buf
      → length buf ≤ max_bytes
      → position buf ≡ none
      → Keeps r max_bytes (buf ++ presented chunks) (chunks, buf, ok total)
  ended-Keeps total buf chunks same bound h =
      (bound, same, detect_smuggling-one r buf (inl (after_first-none buf h)), refl)

  -- The end of a line, in a chunk after a buffer that has no newline.
  end_line-Keeps :
      (total p : ℕ) (buf chunk : List ℕ) (chunks : List Chunk)
      → total ≡ length buf
      → length buf ≤ max_bytes
      → position buf ≡ none
      → position chunk ≡ some p
      → Keeps r max_bytes
          (buf ++ (chunk ++ presented chunks))
          (end_line max_bytes total buf chunk p chunks)
  end_line-Keeps total p buf chunk chunks same bound none_in h =
      if-either (Keeps r max_bytes (buf ++ (chunk ++ presented chunks)))
        (ltb max_bytes (total + suc p)) (λ over. bound)
        (λ fits. (
          omega (
            arith,
            same,
            not_over max_bytes (total + suc p) fits,
            length-append buf (take (suc p) chunk),
            length-take (suc p) chunk,
            position-lt chunk p h,
          ),
          omega (
            arith,
            same,
            length-append buf (take (suc p) chunk),
            length-take (suc p) chunk,
            position-lt chunk p h,
          ),
          detect_smuggling-one r (buf ++ take (suc p) chunk) (
              inr
                (after_first-append buf (take (suc p) chunk) none_in ∙ after_first-take chunk p h)),
          append_assoc buf (take (suc p) chunk) _
              ∙ ap (λ rest. buf ++ rest)
                  (ap (λ rest. take (suc p) chunk ++ rest) (presented-consume (suc p) chunk chunks)
                    ∙ sym
                        (append_assoc (take (suc p) chunk) (drop (suc p) chunk) (presented chunks))
                    ∙ ap (λ c. c ++ presented chunks) (take-drop (suc p) chunk)),
        ))

  next_chunk-Keeps :
      (total : ℕ) (buf chunk : List ℕ) (chunks : List Chunk) (rest : Line) (o : Option ℕ)
      → total ≡ length buf
      → length buf ≤ max_bytes
      → position buf ≡ none
      → position chunk ≡ o
      → (o ≡ none
          → total + length chunk ≤ max_bytes
          → Keeps r max_bytes (buf ++ (chunk ++ presented chunks)) rest)
      → Keeps r max_bytes
          (buf ++ (chunk ++ presented chunks))
          (next_chunk max_bytes total buf chunk chunks rest o)
  next_chunk-Keeps total buf chunk chunks rest (some p) same bound none_in h f =
      end_line-Keeps total p buf chunk chunks same bound none_in h
  next_chunk-Keeps total buf chunk chunks rest none same bound none_in h f =
      if-either (Keeps r max_bytes (buf ++ (chunk ++ presented chunks)))
        (ltb max_bytes (total + length chunk)) (λ over. bound)
        (λ fits. f refl (not_over max_bytes (total + length chunk) fits))

  read_line-Keeps :
      (total : ℕ) (buf : List ℕ) (chunks : List Chunk)
      → total ≡ length buf
      → length buf ≤ max_bytes
      → position buf ≡ none
      → Keeps r max_bytes (buf ++ presented chunks) (read_line max_bytes total buf chunks)
  unfolding read_line
  read_line-Keeps total buf [] same bound h = ended-Keeps total buf [] same bound h
  read_line-Keeps total buf (failed e ∷ chunks) same bound h = bound
  read_line-Keeps total buf (bytes [] ∷ chunks) same bound h =
      ended-Keeps total buf chunks same bound h
  read_line-Keeps total buf (bytes (b ∷ chunk) ∷ chunks) same bound h =
      next_chunk-Keeps total buf (b ∷ chunk) chunks _ _ same bound h refl (λ k fits.
        subst
          (λ all.
            Keeps r max_bytes all
              (read_line max_bytes (total + length (b ∷ chunk)) (buf ++ (b ∷ chunk)) chunks))
          (append_assoc buf (b ∷ chunk) (presented chunks))
          (read_line-Keeps (total + length (b ∷ chunk)) (buf ++ (b ∷ chunk)) chunks
            (omega (arith, same, length-append buf (b ∷ chunk)))
            (omega (arith, same, fits, length-append buf (b ∷ chunk)))
            (position-append buf (b ∷ chunk) h k)))

  -- Whatever chunks the bytes come in, the buffer of `bounded_read_line` never holds more than the limit,
  -- however the reading ends. What it returns without an error is the length of the buffer; the buffer
  -- and what is left to read are together what there was, so that nothing is lost or read twice; and
  -- `detect_smuggling` finds nothing in the buffer.
  pub bounded_read_line-Keeps :
      (chunks : List Chunk)
      → Keeps r max_bytes (presented chunks) (bounded_read_line max_bytes chunks)
  unfolding bounded_read_line position
  bounded_read_line-Keeps chunks = read_line-Keeps 0 [] chunks refl (omega arith) refl
