-- ===== src/Text/Scanning.antt =====
-- The loop of u8substr: where the part that it takes begins and ends.
use pass_keeper.Prelude.{
  ℕ, zero, suc, ◌+◌, ◌-◌, ◌<◌, ◌≡◌, refl, sym, ap, ap₂, subst, ◌∙◌, inl, inr, Bool, true, false,
  List, [], ◌∷◌, ◌++◌, Option, none, some, arith, Bool-cases, if◌then◌else◌, ltb, ◌==◌, length,
}
use pass_keeper.Text.{is_start_byte, Scan, scan_char, scan_loop}

-- The bytes from the start byte of character `n` on.
unfoldable pub from_char : ℕ → List ℕ → Option (List ℕ)
from_char n [] = none
from_char zero (c ∷ str) = if is_start_byte c then some (c ∷ str) else from_char zero str
from_char (suc n) (c ∷ str) = if is_start_byte c then from_char n str else from_char (suc n) str

-- The bytes before the start byte of character `n`.
unfoldable pub take_chars : ℕ → List ℕ → List ℕ
take_chars n [] = []
take_chars zero (c ∷ str) = if is_start_byte c then [] else c ∷ take_chars zero str
take_chars (suc n) (c ∷ str) =
    c ∷ (if is_start_byte c then take_chars n str else take_chars (suc n) str)

-- The rest of the bytes for a length of 0, or those of as many characters.
abbrev pub part : ℕ → List ℕ → List ℕ
part zero str = str
part (suc n) str = take_chars (suc n) str

abbrev scan_at : ℕ → ℕ → ℕ → Scan
scan_at head count left = record {
  head = some head;
  char_count = count;
  substr_length = left;
  finish_calc = left == 0;
}

stays : (b : Bool) → (if b then true else false) ≡ b
stays true = refl
stays false = refl

-- A start byte behind the first character of the part.
scan_known :
    (start head count left iter : ℕ)
    → start < count
    → scan_char start false iter (record {
      head = some head;
      char_count = count;
      substr_length = suc left;
      finish_calc = false;
    })
      ≡ scan_at head (count + 1) left
unfolding scan_char
scan_known start head count left iter h =
    let past : ltb count start ≡ false = ground arith in
    let other : (count == start) ≡ false = ground arith in
    let one_less : suc left - 1 ≡ left = omega arith in
    rw (past, other, one_less)
      (ap
        (λ b. record {
          head = some head;
          char_count = count + 1;
          substr_length = left;
          finish_calc = b;
        })
        (stays (left == 0)))

scan_unknown :
    (start head count iter : ℕ)
    → start < count
    → scan_char start true iter
        (record { head = some head; char_count = count; substr_length = 0; finish_calc = false })
      ≡ record { head = some head; char_count = count + 1; substr_length = 0; finish_calc = false }
unfolding scan_char
scan_unknown start head count iter h =
    let past : ltb count start ≡ false = ground arith in
    let other : (count == start) ≡ false = ground arith in rw (past, other)

one_further :
    (head iter n : ℕ) → ◌≡◌ {A = Option ℕ × ℕ} (some head, iter + 1 + n) (some head, iter + suc n)
one_further head iter n = ap (λ k. (some head, k)) (omega arith)

-- Behind the first character of the part.
scan_rest :
    (str : List ℕ) (start head count left iter : ℕ)
    → start < count
    → scan_loop start false str iter (scan_at head count left)
      ≡ (some head, iter + length (take_chars left str))
unfolding scan_loop take_chars
scan_rest [] start head count left iter h = ap (λ k. (some head, k)) (omega arith)
scan_rest (c ∷ str) start head count zero iter h = elim (Bool-cases (is_start_byte c)) [
  | inl starts ↦ rw (starts) (ap (λ k. (some head, k)) {y = iter + 0} (omega arith))
  | inr inside ↦ rw (inside) (
      scan_rest str start head count 0 (iter + 1) h
      ∙ one_further head iter (length (take_chars 0 str)))
]
scan_rest (c ∷ str) start head count (suc left) iter h = elim (Bool-cases (is_start_byte c)) [
  | inl starts ↦
      let more : (suc left == 0) ≡ false = ground arith in
      let next : Scan = scan_at head (count + 1) left in
      rw (starts, more, scan_known start head count left iter h)
        (scan_rest str start head (count + 1) left (iter + 1) (omega arith)
          ∙ one_further head iter (length (take_chars left str)))
  | inr inside ↦ rw (inside) (
      scan_rest str start head count (suc left) (iter + 1) h
      ∙ one_further head iter (length (take_chars (suc left) str)))
]

scan_all :
    (str : List ℕ) (start head count iter : ℕ)
    → start < count
    → scan_loop start true str iter
        (record { head = some head; char_count = count; substr_length = 0; finish_calc = false })
      ≡ (some head, iter + length str)
unfolding scan_loop
scan_all [] start head count iter h = ap (λ k. (some head, k)) (omega arith)
scan_all (c ∷ str) start head count iter h = elim (Bool-cases (is_start_byte c)) [
  | inl starts ↦
      rw (starts, scan_unknown start head count iter h)
        (scan_all str start head (count + 1) (iter + 1) (omega arith)
          ∙ one_further head iter (length str))
  | inr inside ↦
      rw (inside) (scan_all str start head count (iter + 1) h ∙ one_further head iter (length str))
]

abbrev pub scan_start : ℕ → ℕ → Scan
scan_start count substr_length = record {
  head = none;
  char_count = count;
  substr_length = substr_length;
  finish_calc = false;
}

-- The first character of the part.
scan_first :
    (str : List ℕ) (c start substr_length iter : ℕ)
    → is_start_byte c ≡ true
    → scan_loop start (substr_length == 0) (c ∷ str) iter (scan_start start substr_length)
      ≡ (some iter, iter + length (part substr_length (c ∷ str)))
unfolding scan_loop scan_char take_chars
scan_first str c start zero iter starts =
    let here : ltb start start ≡ false = ground arith in
    let same : (start == start) ≡ true = ground arith in
    rw (starts, here, same)
      (scan_all str start iter (start + 1) (iter + 1) (omega arith)
        ∙ one_further iter iter (length str))
scan_first str c start (suc n) iter starts =
    let here : ltb start start ≡ false = ground arith in
    let same : (start == start) ≡ true = ground arith in
    let known : (suc n == 0) ≡ false = ground arith in
    let one_less : suc n - 1 ≡ n = omega arith in
    rw (starts, here, same, known, one_less)
      (ap₂
          (λ u b. scan_loop start u str (iter + 1) (record {
            head = some iter;
            char_count = start + 1;
            substr_length = n;
            finish_calc = b;
          }))
          known (stays (n == 0))
        ∙ scan_rest str start iter (start + 1) n (iter + 1) (omega arith)
        ∙ one_further iter iter (length (take_chars n str)))

-- What the loop answers with when the part starts at `s`, if it does.
abbrev pub Scanned : ℕ → ℕ → List ℕ → Option (List ℕ) → Option ℕ × ℕ → Type 0
Scanned substr_length iter str none r = r.0 ≡ none
Scanned substr_length iter str (some s) r =
    (front : List ℕ) × (str ≡ front ++ s)
    × (r ≡ (some (iter + length front), iter + length front + length (part substr_length s)))

Scanned-further :
    (substr_length iter c : ℕ) (str : List ℕ) (o : Option (List ℕ)) (r : Option ℕ × ℕ)
    → Scanned substr_length (iter + 1) str o r
    → Scanned substr_length iter (c ∷ str) o r
Scanned-further substr_length iter c str none r h = h
Scanned-further substr_length iter c str (some s) r (front, split, e) = (
  c ∷ front,
  ap (◌∷◌ c) split,
  e
      ∙ ap (λ k. (some k, k + length (part substr_length s))) {y = iter + suc (length front)}
          (omega arith),
)

skip_char :
    (start count substr_length iter : ℕ) (u : Bool)
    → count < start
    → scan_char start u iter (scan_start count substr_length) ≡ scan_start (count + 1) substr_length
unfolding scan_char
skip_char start count substr_length iter u h =
    let before : ltb count start ≡ true = ground arith in rw (before)

pub from_here :
    (c : ℕ) (str : List ℕ) → is_start_byte c ≡ true → from_char 0 (c ∷ str) ≡ some (c ∷ str)
unfolding from_char
from_here c str starts = rw (starts)

scan_found :
    (str : List ℕ) (c count start substr_length iter : ℕ)
    → count ≡ start
    → is_start_byte c ≡ true
    → Scanned substr_length iter
        (c ∷ str)
        (some (c ∷ str))
        (scan_loop start (substr_length == 0) (c ∷ str) iter (scan_start count substr_length))
scan_found str c count start substr_length iter here starts = (
  [],
  refl,
  ap (λ k. scan_loop start (substr_length == 0) (c ∷ str) iter (scan_start k substr_length)) here
      ∙ scan_first str c start substr_length iter starts
      ∙ ap (λ k. (some k, k + length (part substr_length (c ∷ str)))) {y = iter + 0} (omega arith),
)

pub scan_lem :
    (str : List ℕ) (n count start substr_length iter : ℕ)
    → count + n ≡ start
    → Scanned substr_length iter str
        (from_char n str)
        (scan_loop start (substr_length == 0) str iter (scan_start count substr_length))
unfolding from_char scan_loop
scan_lem [] n count start substr_length iter h = refl
scan_lem (c ∷ str) zero count start substr_length iter h = elim (Bool-cases (is_start_byte c)) [
  | inl starts ↦
      subst
        (λ o.
          Scanned substr_length iter (c ∷ str) o
            (scan_loop start (substr_length == 0) (c ∷ str) iter (scan_start count substr_length)))
        (sym (from_here c str starts))
        (scan_found str c count start substr_length iter (omega arith) starts)
  | inr inside ↦ rw (inside) (
      Scanned-further substr_length iter c str _ _
        (scan_lem str 0 count start substr_length (iter + 1) h))
]
scan_lem (c ∷ str) (suc n) count start substr_length iter h = elim (Bool-cases (is_start_byte c)) [
  | inl starts ↦
      rw (starts, skip_char start count substr_length iter (substr_length == 0) (omega arith))
        (Scanned-further substr_length iter c str _ _
          (scan_lem str n (count + 1) start substr_length (iter + 1) (omega arith)))
  | inr inside ↦ rw (inside) (
      Scanned-further substr_length iter c str _ _
        (scan_lem str (suc n) count start substr_length (iter + 1) h))
]
