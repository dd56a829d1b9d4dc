-- ===== src/Hex/Encode.antt =====
-- bin2hex: the loop writes the digits downwards over the bytes it still has to read.
use pass_keeper.Prelude.{
  ◌^◌, ◌<◌, wrap, ℕ, zero, suc, ◌+◌, ◌-◌, ◌*◌, ◌≤◌, ◌≡◌, refl, sym, ap, ap₂, ◌∙◌, List, [], ◌∷◌,
  ◌++◌, append_assoc, append-nil, arith, ok, length, length-append, length-replicate, replicate_add,
  load, store, resize, replicate, load-append, store-append, resize_grow,
}
use pass_keeper.Hex.{bin2hex_loop, bin2hex}
use pass_keeper.Hex.Digits.{
  AllBytes, digits_of, hex_of-digits_of, hex_of, hex_of-append, length-hex_of, high_digit,
  low_digit,
}

-- The last cell apart.
abbrev Snoc : List ℕ → ℕ → Type 0
Snoc xs n = (ys : List ℕ) × ((y : ℕ) × ((xs ≡ ys ++ y ∷ []) × (length ys ≡ n)))

snoc : (xs : List ℕ) (n : ℕ) → length xs ≡ suc n → Snoc xs n
snoc [] n h = absurd (omega arith)
snoc (x ∷ []) n h = ([], (x, (refl, omega arith)))
snoc (x ∷ (w ∷ xs)) zero h = absurd (omega arith)
snoc (x ∷ (w ∷ xs)) (suc n) h =
    let r : Snoc (w ∷ xs) n = snoc (w ∷ xs) n (omega arith) in
    (x ∷ r.0, (r.1.0, (ap (◌∷◌ x) r.1.1.0, omega (arith, r.1.1.1))))

store_split :
    (mem xs ys : List ℕ) (y v i : ℕ)
    → mem ≡ xs ++ y ∷ ys
    → i ≡ length xs
    → store mem i v ≡ ok (xs ++ v ∷ ys)
store_split mem xs ys y v i e h = rw (e, store-append xs ys y v i h)

-- One byte, the last of those left, with the cells that its digits go to.
round_lem :
    (ys front gap out : List ℕ) (b v u i : ℕ)
    → length ys ≡ i
    → length front ≡ i
    → length gap ≡ i
    → b ∷ front ≡ gap ++ u ∷ []
    → bin2hex_loop (suc i) (ys ++ b ∷ (front ++ v ∷ out))
      ≡ bin2hex_loop i (ys ++ (gap ++ (high_digit b ∷ (low_digit b ∷ out))))
unfolding bin2hex_loop
round_lem ys front gap out b v u i hy hf hg e =
    let low : ℕ = low_digit b in
    let high : ℕ = high_digit b in
    let rest : List ℕ = low ∷ out in
    let first_split : ys ++ b ∷ (front ++ v ∷ out) ≡ (ys ++ b ∷ front) ++ v ∷ out =
      sym (append_assoc ys (b ∷ front) (v ∷ out)) in
    let second_split : (ys ++ b ∷ front) ++ rest ≡ (ys ++ gap) ++ u ∷ rest =
      append_assoc ys (b ∷ front) rest
      ∙ ap (λ z. ys ++ (z ++ rest)) e
      ∙ ap (ys ++◌) (append_assoc gap (u ∷ []) rest)
      ∙ sym (append_assoc ys gap (u ∷ rest)) in
    let again : load ((ys ++ b ∷ front) ++ rest) i ≡ ok b =
      rw (append_assoc ys (b ∷ front) rest, load-append ys (front ++ rest) b i (sym hy)) in
    rw (
      load-append ys (front ++ v ∷ out) b i (sym hy),
      store_split _ (ys ++ b ∷ front) out v low (2 * i + 1) first_split
          (omega (arith, length-append ys (b ∷ front))),
      again,
      store_split _ (ys ++ gap) rest u high (2 * i) second_split
          (omega (arith, length-append ys gap)),
      append_assoc ys gap (high ∷ rest),
    )

last_byte :
    (i : ℕ) (xs gap out ys : List ℕ) (b : ℕ) (front : List ℕ) (v : ℕ)
    → xs ≡ ys ++ b ∷ []
    → length ys ≡ i
    → gap ≡ front ++ v ∷ []
    → length front ≡ i
    → ((z w : List ℕ) → length z ≡ i → bin2hex_loop i (ys ++ (z ++ w)) ≡ ok (hex_of ys ++ w))
    → bin2hex_loop (suc i) (xs ++ (gap ++ out)) ≡ ok (hex_of xs ++ out)
unfolding hex_of
last_byte i xs gap out ys b front v ex ly eg lf shorter =
    let t : Snoc (b ∷ front) i = snoc (b ∷ front) i (omega arith) in
    let digits : List ℕ = high_digit b ∷ (low_digit b ∷ []) in
    ap (bin2hex_loop (suc i)) (
      ap₂ (λ x z. x ++ (z ++ out)) ex eg
      ∙ append_assoc ys (b ∷ []) ((front ++ v ∷ []) ++ out)
      ∙ ap (λ z. ys ++ b ∷ z) (append_assoc front (v ∷ []) out))
    ∙ round_lem ys front t.0 out b v t.1.0 i ly lf t.1.1.1 t.1.1.0
    ∙ shorter t.0 (digits ++ out) t.1.1.1
    ∙ ap ok (
        sym (append_assoc (hex_of ys) digits out)
        ∙ ap (λ z. z ++ out) (sym (ap hex_of ex ∙ hex_of-append ys (b ∷ []))))

bin2hex_loop_lem :
    (n : ℕ) (xs gap out : List ℕ)
    → length xs ≡ n
    → length gap ≡ n
    → bin2hex_loop n (xs ++ (gap ++ out)) ≡ ok (hex_of xs ++ out)
unfolding bin2hex_loop hex_of
bin2hex_loop_lem zero [] [] out hx hg = refl
bin2hex_loop_lem zero [] (c ∷ gap) out hx hg = absurd (omega arith)
bin2hex_loop_lem zero (c ∷ xs) gap out hx hg = absurd (omega arith)
bin2hex_loop_lem (suc i) xs gap out hx hg =
    let s : Snoc xs i = snoc xs i hx in
    let g : Snoc gap i = snoc gap i hg in
    last_byte i xs gap out s.0 s.1.0 g.0 g.1.0 s.1.1.0 s.1.1.1 g.1.1.0 g.1.1.1
      λ z w. bin2hex_loop_lem i s.0 z w s.1.1.1

pub bin2hex-hex_of :
    (junk : ℕ) (bin : List ℕ) (bin_len : ℕ)
    → length bin ≤ bin_len
    → bin_len < 2 ^ 63
    → bin2hex junk bin bin_len
      ≡ ok (hex_of (bin ++ replicate (bin_len - length bin) junk) ++ 0 ∷ [], bin_len * 2)
unfolding bin2hex
bin2hex-hex_of junk bin n h small =
    let unset : List ℕ = replicate (n - length bin) junk in
    let gap : List ℕ = replicate n junk in
    let bytes : List ℕ = bin ++ unset in
    let len : length bytes ≡ n =
      omega (arith, length-append bin unset, length-replicate (n - length bin) junk) in
    let room : resize junk bin (n * 2 + 1) ≡ bytes ++ (gap ++ junk ∷ []) =
      resize_grow junk bin (n * 2 + 1) (omega arith)
      ∙ ap (λ k. bin ++ replicate k junk) {y = (n - length bin) + (n + 1)} (omega arith)
      ∙ ap (bin ++◌)
          (replicate_add (n - length bin) (n + 1) junk ∙ ap (unset ++◌) (replicate_add n 1 junk))
      ∙ sym (append_assoc bin unset (gap ++ junk ∷ [])) in
    let unwrapped : wrap (n * 2) ≡ n * 2 = omega arith in
    let unwrapped' : wrap (n * 2 + 1) ≡ n * 2 + 1 = omega arith in
    rw (
      unwrapped,
      unwrapped',
      room,
      bin2hex_loop_lem n bytes gap (junk ∷ []) len (length-replicate n junk),
      store-append (hex_of bytes) [] junk 0 (n * 2) (omega (arith, len, length-hex_of bytes)),
    )

pub bin2hex_whole :
    (junk : ℕ) (bin : List ℕ)
    → length bin < 2 ^ 63
    → bin2hex junk bin (length bin) ≡ ok (hex_of bin ++ 0 ∷ [], length bin * 2)
bin2hex_whole junk bin small =
    bin2hex-hex_of junk bin (length bin) (omega arith) small
    ∙ ap (λ k. ok (hex_of (bin ++ replicate k junk) ++ 0 ∷ [], length bin * 2)) {y = 0}
        (omega arith)
    ∙ ap (λ z. ok (hex_of z ++ 0 ∷ [], length bin * 2)) (append-nil bin)

AllBytes-append : (xs ys : List ℕ) → AllBytes xs → AllBytes ys → AllBytes (xs ++ ys)
AllBytes-append [] ys h k = k
AllBytes-append (x ∷ xs) ys h k = (h.0, AllBytes-append xs ys h.1 k)

AllBytes-replicate : (n junk : ℕ) → junk < 256 → AllBytes (replicate n junk)
AllBytes-replicate zero junk h = tt
AllBytes-replicate (suc n) junk h = (h, AllBytes-replicate n junk h)

-- bin2hex, in place, gives two digits, from 0 to 9 and A to F, for each of bin_len bytes, the
-- higher half first, and a NUL; where the array holds fewer, the rest of the digits are those of
-- bytes that realloc left unset; bin_len is below 2^63.
pub bin2hex_lem :
    (junk : ℕ) (bin : List ℕ) (bin_len : ℕ)
    → AllBytes bin
    → junk < 256
    → length bin ≤ bin_len
    → bin_len < 2 ^ 63
    → bin2hex junk bin bin_len
      ≡ ok (digits_of (bin ++ replicate (bin_len - length bin) junk) ++ 0 ∷ [], bin_len * 2)
bin2hex_lem junk bin n bytes byte h small =
    let unset : List ℕ = replicate (n - length bin) junk in
    bin2hex-hex_of junk bin n h small
    ∙ ap (λ z. ok (z ++ 0 ∷ [], n * 2))
        (hex_of-digits_of (bin ++ unset)
          (AllBytes-append bin unset bytes (AllBytes-replicate (n - length bin) junk byte)))
