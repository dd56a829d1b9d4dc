-- ===== src/Strbuf/Run.antt =====
-- A buffer as an abstract text: what a sequence of calls does to it.
use pass_keeper.Prelude.{
  ℕ, ◌+◌, ◌≤◌, ◌<◌, ◌^◌, refl, List, [], ◌∷◌, ◌++◌, Outcome, ok, ◌>>=◌, Returns, Returns-bind,
  length, arith, length-append,
}
use pass_keeper.Strbuf.{
  Strbuf, init, strbuf_vprintf, strbuf_putchar, strbuf_write, strbuf_puts, strbuf_trunc,
}
use pass_keeper.Strbuf.Room.{Holds}
use pass_keeper.Strbuf.Refines.{putchar_lem, write_lem, puts_lem}
use pass_keeper.Strbuf.Printf.{printf_lem}
use pass_keeper.Strbuf.Trim.{trunc_lem}

pub data Call : Type 0 where
  putchar : ℕ → Call
  write : List ℕ → Call
  puts : List ℕ → Call
  printf : List ℕ → Call
  trunc : Call

-- What a call is to do to the text.
abbrev pub meaning : Call → List ℕ → List ℕ
meaning (putchar c) t = t ++ c ∷ []
meaning (write s) t = t ++ s
meaning (puts s) t = t ++ (s ++ b'\n' ∷ [])
meaning (printf s) t = t ++ s
meaning trunc t = []

-- The room that a call may take.
abbrev pub weight : Call → ℕ
weight (putchar c) = 1
weight (write s) = length s
weight (puts s) = length s + 1
weight (printf s) = length s
weight trunc = 0

abbrev pub FitsInt : Call → Type 0
FitsInt (printf s) = length s < 2 ^ 31
FitsInt _ = Unit

pub perform : ℕ → Call → Strbuf → Outcome Strbuf
perform junk (putchar c) sb = strbuf_putchar junk sb c
perform junk (write s) sb = strbuf_write junk sb s
perform junk (puts s) sb = strbuf_puts junk sb s
perform junk (printf s) sb = strbuf_vprintf junk sb s
perform junk trunc sb = strbuf_trunc sb

pub perform_all : ℕ → List Call → Strbuf → Outcome Strbuf
perform_all junk [] sb = ok sb
perform_all junk (c ∷ cs) sb = perform junk c sb >>= λ sb'. perform_all junk cs sb'

abbrev pub meaning_all : List Call → List ℕ → List ℕ
meaning_all [] t = t
meaning_all (c ∷ cs) t = meaning_all cs (meaning c t)

abbrev pub weight_all : List Call → ℕ
weight_all [] = 0
weight_all (c ∷ cs) = weight c + weight_all cs

abbrev pub FitsIntAll : List Call → Type 0
FitsIntAll [] = Unit
FitsIntAll (c ∷ cs) = FitsInt c × FitsIntAll cs

length-meaning : (c : Call) (t : List ℕ) → length (meaning c t) ≤ length t + weight c
length-meaning (putchar c) t = omega (arith, length-append t (c ∷ []))
length-meaning (write s) t = omega (arith, length-append t s)
length-meaning (puts s) t =
    omega (arith, length-append t (s ++ b'\n' ∷ []), length-append s (b'\n' ∷ []))
length-meaning (printf s) t = omega (arith, length-append t s)
length-meaning trunc t = omega arith

perform_lem :
    (junk : ℕ) (c : Call) (sb : Strbuf) (t : List ℕ)
    → Holds sb t
    → length t + weight c < 2 ^ 53
    → FitsInt c
    → Returns (λ sb'. Holds sb' (meaning c t)) (perform junk c sb)
unfolding perform
perform_lem junk (putchar c) sb t hold h int = putchar_lem junk sb t c hold (omega arith)
perform_lem junk (write s) sb t hold h int = write_lem junk sb t s hold (omega arith)
perform_lem junk (puts s) sb t hold h int = puts_lem junk sb t s hold (omega arith)
perform_lem junk (printf s) sb t hold h int = printf_lem junk sb t s hold (omega arith) int
perform_lem junk trunc sb t hold h int = trunc_lem sb t hold

pub perform_all_lem :
    (junk : ℕ) (cs : List Call) (sb : Strbuf) (t : List ℕ)
    → Holds sb t
    → length t + weight_all cs < 2 ^ 53
    → FitsIntAll cs
    → Returns (λ sb'. Holds sb' (meaning_all cs t)) (perform_all junk cs sb)
unfolding perform_all
perform_all_lem junk [] sb t hold h int = (sb, refl, hold)
perform_all_lem junk (c ∷ cs) sb t hold h int =
    Returns-bind (perform junk c sb) _ (perform_lem junk c sb t hold (omega arith) int.0)
      (λ sb' held.
        perform_all_lem junk cs sb' (meaning c t) held (omega (arith, length-meaning c t)) int.1)

-- Any sequence of putchar, write, puts, printf and trunc calls on a fresh buffer, of fewer than
-- 2^53 bytes in all and fewer than 2^31 in each printf, stays inside its memory, exits by no
-- check, and leaves the text that the calls mean, NUL-terminated.
pub run_fresh :
    (junk : ℕ) (cs : List Call)
    → weight_all cs < 2 ^ 53
    → FitsIntAll cs
    → Returns (λ sb. Holds sb (meaning_all cs [])) (perform_all junk cs init)
run_fresh junk cs h int = perform_all_lem junk cs init [] (refl, refl, refl) (omega arith) int
