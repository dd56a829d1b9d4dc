-- ===== src/Prelude/Segments.antt =====
-- Reads and writes at the border between two parts of an array.
use pass_keeper.Prelude.Tests.{ltb, leb}
use Prim.Native.Nat.{ℕ, zero, suc, ◌+◌, ◌-◌, ◌≤◌}
use mathlib.Core.Path.{◌≡◌, refl, ap, ◌∙◌}
use mathlib.Core.Bool.{true}
use mathlib.Core.List.{List, [], ◌∷◌, ◌++◌}
use mathlib.Core.Option.{some}
use native.Mathlib.Omega.{arith}
use pass_keeper.Prelude.Lists.{
  length, get_elem?, set, take, drop, replicate, length-append, length-take, length-replicate,
}
use pass_keeper.Prelude.Memory.{load, store, copy_to, copy_from, resize}
use pass_keeper.Prelude.Calls.{ok}

module _ {ℓ} {A : Type ℓ} where
  pub take-append : (xs ys : List A) → take (length xs) (xs ++ ys) ≡ xs
  take-append [] ys = refl
  take-append (x ∷ xs) ys = ap (◌∷◌ x) (take-append xs ys)

  pub drop-append : (xs ys : List A) → drop (length xs) (xs ++ ys) ≡ ys
  drop-append [] ys = refl
  drop-append (x ∷ xs) ys = drop-append xs ys

  pub take_all : (xs : List A) (n : ℕ) → length xs ≤ n → take n xs ≡ xs
  take_all [] zero h = refl
  take_all [] (suc n) h = refl
  take_all (x ∷ xs) zero h = absurd (omega arith)
  take_all (x ∷ xs) (suc n) h = ap (◌∷◌ x) (take_all xs n (omega arith))

  pub take-append_le :
      (xs ys : List A) (n : ℕ) → length xs ≤ n → take n (xs ++ ys) ≡ xs ++ take (n - length xs) ys
  take-append_le [] ys n h = ap (λ k. take k ys) (omega arith)
  take-append_le (x ∷ xs) ys zero h = absurd (omega arith)
  take-append_le (x ∷ xs) ys (suc n) h =
      ap (◌∷◌ x) (take-append_le xs ys n (omega arith) ∙ ap (λ k. xs ++ take k ys) (omega arith))

  pub get_elem?-append : (xs ys : List A) (y : A) → get_elem? (xs ++ y ∷ ys) (length xs) ≡ some y
  get_elem?-append [] ys y = refl
  get_elem?-append (x ∷ xs) ys y = get_elem?-append xs ys y

  pub set-append : (xs ys : List A) (y v : A) → set (xs ++ y ∷ ys) (length xs) v ≡ xs ++ v ∷ ys
  set-append [] ys y v = refl
  set-append (x ∷ xs) ys y v = ap (◌∷◌ x) (set-append xs ys y v)

  pub load-append : (xs ys : List A) (y : A) (i : ℕ) → i ≡ length xs → load (xs ++ y ∷ ys) i ≡ ok y
  unfolding load
  load-append xs ys y i e = rw (e, load, get_elem?-append xs ys y)

  pub store-append :
      (xs ys : List A) (y v : A) (i : ℕ)
      → i ≡ length xs
      → store (xs ++ y ∷ ys) i v ≡ ok (xs ++ v ∷ ys)
  unfolding store
  store-append xs ys y v i e =
      let fits : ltb (length xs) (length (xs ++ y ∷ ys)) ≡ true =
        ground (arith, length-append xs (y ∷ ys)) in
      rw (e, fits, set-append xs ys y v)

  pub drop-append_add : (xs ys : List A) (n : ℕ) → drop (length xs + n) (xs ++ ys) ≡ drop n ys
  drop-append_add [] ys n = ap (λ k. drop k ys) {y = n} (omega arith)
  drop-append_add (x ∷ xs) ys n =
      ap (λ k. drop k (x ∷ (xs ++ ys))) {y = suc (length xs + n)} (omega arith)
      ∙ drop-append_add xs ys n

  pub copy_to-append :
      (xs ys src : List A) (i : ℕ)
      → i ≡ length xs
      → length src ≤ length ys
      → copy_to (xs ++ ys) i src ≡ ok (xs ++ (src ++ drop (length src) ys))
  unfolding copy_to
  copy_to-append xs ys src i e h =
      let fits : leb (length xs + length src) (length (xs ++ ys)) ≡ true =
        ground (arith, length-append xs ys) in
      rw (e, fits, take-append xs ys, drop-append_add xs ys (length src))

  pub copy_from-append :
      (xs ys zs : List A) (i n : ℕ)
      → i ≡ length xs
      → n ≡ length ys
      → copy_from (xs ++ (ys ++ zs)) i n ≡ ok ys
  unfolding copy_from
  copy_from-append xs ys zs i n e h =
      let fits : leb (length xs + length ys) (length (xs ++ (ys ++ zs))) ≡ true =
        ground (arith, length-append xs (ys ++ zs), length-append ys zs) in
      rw (e, h, fits, drop-append xs (ys ++ zs), take-append ys zs)

  pub length-resize : (junk : A) (a : List A) (n : ℕ) → length (resize junk a n) ≡ n
  unfolding resize
  length-resize junk a n = omega (
    arith,
    length-append (take n a) (replicate (n - length a) junk),
    length-take n a,
    length-replicate (n - length a) junk,
  )

  -- Growing keeps the cells.
  pub resize_grow :
      (junk : A) (a : List A) (n : ℕ)
      → length a ≤ n
      → resize junk a n ≡ a ++ replicate (n - length a) junk
  unfolding resize
  resize_grow junk a n h = rw (take_all a n h)

  -- A first allocation holds nothing.
  pub resize_empty : (junk : A) (n : ℕ) → resize junk [] n ≡ replicate n junk
  unfolding resize
  resize_empty junk zero = refl
  resize_empty junk (suc n) = ap (λ k. replicate k junk) {y = suc n} (omega arith)

  -- The first cell apart.
  abbrev pub First : List A → ℕ → Type ℓ
  First xs n = (y : A) × ((ys : List A) × ((xs ≡ y ∷ ys) × (length ys ≡ n)))

  pub first : (xs : List A) (n : ℕ) → length xs ≡ suc n → First xs n
  first [] n h = absurd (omega arith)
  first (x ∷ xs) n h = (x, (xs, (refl, omega arith)))
