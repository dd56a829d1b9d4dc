-- ===== src/Strbuf/Room.antt =====
-- `Holds sb t`: the buffer is well formed and its text is `t`. Growing makes room behind the text.
use pass_keeper.Prelude.{
  ℕ, suc, ◌+◌, ◌-◌, ◌≤◌, ◌<◌, ◌^◌, ◌≡◌, refl, sym, ap, ◌∙◌, Bool, true, false, List, [], ◌∷◌, ◌++◌,
  append_assoc, ok, Returns, if◌then◌else◌, ltb, ◌==◌, length, replicate, resize, wrap, arith,
  capacity_grow_lem, next_capacity, next_capacity_bounds, length-append, length-replicate,
  resize_grow, resize_empty, store-append,
}
use pass_keeper.Strbuf.{
  Buffer, null, defbuf, heap, Strbuf, cells, store_byte, realloc, strbuf_grow, strbuf_size_avail,
}

-- The parts are those of a `Strbuf`: its memory, length and capacity.
abbrev pub HoldsIn : Buffer → ℕ → ℕ → List ℕ → Type 0
HoldsIn null len size t = ⊥
HoldsIn defbuf len size t = (t ≡ []) × (len ≡ 0) × (size ≡ 0)
HoldsIn (heap b) len size t =
    (rest : List ℕ) × (b ≡ t ++ 0 ∷ rest) × (len ≡ length t) × (size ≡ length t + length rest + 1)

abbrev pub Holds : Strbuf → List ℕ → Type 0
Holds sb t = HoldsIn sb.buf sb.length sb.capacity t

-- The text stands in an array of its own, with `n` cells or more behind the cell that ends it.
pub record HasRoom (sb : Strbuf) (t : List ℕ) (n : ℕ) : Type 0 where
  pub next : ℕ
  pub rest : List ℕ
  pub memory : sb.buf ≡ heap (t ++ next ∷ rest)
  pub size : sb.length ≡ length t
  pub cap : sb.capacity ≡ length t + length rest + 1
  pub room : n ≤ length rest

pub grow_heap :
    (junk next : ℕ) (t rest : List ℕ) (n : ℕ)
    → length t + n < 2 ^ 55
    → length rest < n
    → Returns
        (λ sb. HasRoom sb t n)
        (strbuf_grow junk
          (record {
            buf = heap (t ++ next ∷ rest);
            length = length t;
            capacity = length t + length rest + 1;
          })
          n)
unfolding strbuf_grow cells realloc
grow_heap junk next t rest n h less =
    let size = length t + n + 1 in
    let old = length t + length rest + 1 in
    let cap' = next_capacity size old in
    let rest' = rest ++ replicate (cap' - length (t ++ next ∷ rest)) junk in
    let nonempty : (old == 0) ≡ false = ground arith in
    let exact : wrap size ≡ size = omega arith in
    let small : ltb old size ≡ true = ground arith in
    let len : length (t ++ next ∷ rest) ≡ old = omega (arith, length-append t (next ∷ rest)) in
    let bounds = next_capacity_bounds size old in
    (
      record { buf = heap (t ++ next ∷ rest'); length = length t; capacity = cap' },
      rw (
        nonempty,
        exact,
        capacity_grow_lem 1 size old (omega arith) (omega arith) (omega arith),
        small,
        resize_grow junk (t ++ next ∷ rest) cap' (omega arith),
        append_assoc t (next ∷ rest),
      ),
      record {
        next = next;
        rest = rest';
        memory = refl;
        size = refl;
        cap = omega (
          arith,
          length-append rest (replicate (cap' - length (t ++ next ∷ rest)) junk),
          length-replicate (cap' - length (t ++ next ∷ rest)) junk,
        );
        room = omega (
          arith,
          length-append rest (replicate (cap' - length (t ++ next ∷ rest)) junk),
          length-replicate (cap' - length (t ++ next ∷ rest)) junk,
        );
      },
    )

pub grow_defbuf :
    (junk n : ℕ)
    → n < 2 ^ 55
    → Returns
        (λ sb. HasRoom sb [] n)
        (strbuf_grow junk (record { buf = defbuf; length = 0; capacity = 0 }) n)
unfolding strbuf_grow cells realloc store_byte
grow_defbuf junk n h =
    let size = 0 + n + 1 in
    let cap' = next_capacity size 0 in
    let exact : wrap size ≡ size = omega arith in
    let small : ltb 0 size ≡ true = ground arith in
    let bounds = next_capacity_bounds size 0 in
    let split : cap' ≡ suc (cap' - 1) = omega arith in
    let filled : resize junk [] cap' ≡ junk ∷ replicate (cap' - 1) junk =
      resize_empty junk cap' ∙ ap (λ k. replicate k junk) split in
    (
      record { buf = heap (0 ∷ replicate (cap' - 1) junk); length = 0; capacity = cap' },
      rw (
        exact,
        capacity_grow_lem 1 size 0 (omega arith) (omega arith) (omega arith),
        small,
        filled,
        store-append [] (replicate (cap' - 1) junk) junk 0 0 refl,
      ),
      record {
        next = 0;
        rest = replicate (cap' - 1) junk;
        memory = refl;
        size = refl;
        cap = omega (arith, length-replicate (cap' - 1) junk);
        room = omega (arith, length-replicate (cap' - 1) junk);
      },
    )

pub HoldsIn-grow :
    (junk : ℕ) (b : Buffer) (len size : ℕ) (t : List ℕ) (n : ℕ)
    → HoldsIn b len size t
    → 0 < n
    → length t + n < 2 ^ 55
    → ltb (strbuf_size_avail (record { buf = b; length = len; capacity = size })) n ≡ true
    → Returns
        (λ sb'. HasRoom sb' t n)
        (strbuf_grow junk (record { buf = b; length = len; capacity = size }) n)
unfolding strbuf_size_avail
HoldsIn-grow junk null len size t n hold pos h e = absurd hold
HoldsIn-grow junk defbuf len size t n (et, el, es) pos h e =
    rw (et, el, es) (grow_defbuf junk n (omega arith))
HoldsIn-grow junk (heap b) len size t n (rest, eb, el, es) pos h e =
    let less : length rest < n = ground arith in rw (eb, el, es) (grow_heap junk 0 t rest n h less)

pub HoldsIn-room :
    (b : Buffer) (len size : ℕ) (t : List ℕ) (n : ℕ)
    → HoldsIn b len size t
    → 0 < n
    → ltb (strbuf_size_avail (record { buf = b; length = len; capacity = size })) n ≡ false
    → HasRoom (record { buf = b; length = len; capacity = size }) t n
unfolding strbuf_size_avail
HoldsIn-room null len size t n hold pos e = absurd hold
HoldsIn-room defbuf len size t n (et, el, es) pos e = absurd (ground arith)
HoldsIn-room (heap b) len size t n (rest, eb, el, es) pos e = record {
  next = 0;
  rest = rest;
  memory = ap heap eb;
  size = el;
  cap = es;
  room = ground arith;
}

-- `if (need more) strbuf_grow(sb, n)`, however the source words the test.
pub make_room :
    (junk : ℕ) (sb : Strbuf) (t : List ℕ) (n : ℕ) (test : Bool)
    → Holds sb t
    → 0 < n
    → length t + n < 2 ^ 55
    → test ≡ ltb (strbuf_size_avail sb) n
    → Returns (λ sb'. HasRoom sb' t n) (if test then strbuf_grow junk sb n else ok sb)
make_room junk sb t n true hold pos h e =
    HoldsIn-grow junk sb.buf sb.length sb.capacity t n hold pos h (sym e)
make_room junk sb t n false hold pos h e =
    (sb, refl, HoldsIn-room sb.buf sb.length sb.capacity t n hold pos (sym e))
