-- ===== src/Cipher/Stops.antt =====
-- src/cipher-config.c: what stops deserialize_cipher_config at a field.
use pass_keeper.Prelude.{
  ◌⊎◌, inl, inr, Outcome, died, bugged, exited, fault, ◌>>=◌, some, leb, ℕ, ◌≡◌, refl, Bool, true,
  false, List, [], ◌∷◌, ◌++◌, Option, none, ok, if◌then◌else◌, length, load,
}
use pass_keeper.Cipher.{
  CipherConfig, CipherKey, Deserialized, clobbered, same_string, set_pointer, overwrite, set_memory,
}
use pass_keeper.Cipher.Fields.{Field}
use pass_keeper.Cipher.Written.{algorithm_field}
use pass_keeper.Cipher.Reading.{absorb, read_all}

-- The key stops the reader: a binary one at the pointer behind the array, a passphrase at bug(), if
-- nothing else has stopped it before.
abbrev pub KeyStops : (is_binary : Bool) → Outcome Deserialized → Type 0
KeyStops true r = r ≡ fault
KeyStops false r = (r ≡ bugged) ⊎ (r ≡ fault)

KeyStops-fault : (is_binary : Bool) → KeyStops is_binary fault
KeyStops-fault true = refl
KeyStops-fault false = inr refl

-- The field is read, or that is undefined.
abbrev pub OkOrFault : Outcome (CipherConfig × CipherKey) → Type 0
OkOrFault (ok a) = Unit
OkOrFault died = ⊥
OkOrFault bugged = ⊥
OkOrFault exited = ⊥
OkOrFault fault = Unit

abbrev pub AreReadable : List Field → Type 0
AreReadable [] = Unit
AreReadable (f ∷ fs) =
    ((config : CipherConfig) (key : CipherKey) → OkOrFault (absorb f config key)) × AreReadable fs

KeyStops-bind :
    (is_binary : Bool) (m : Outcome (CipherConfig × CipherKey))
    (k : CipherConfig × CipherKey → Outcome Deserialized)
    → OkOrFault m
    → ((a : CipherConfig × CipherKey) → KeyStops is_binary (k a))
    → KeyStops is_binary (m >>= k)
KeyStops-bind is_binary (ok a) k h stops = stops a
KeyStops-bind is_binary died k h stops = absurd h
KeyStops-bind is_binary bugged k h stops = absurd h
KeyStops-bind is_binary exited k h stops = absurd h
KeyStops-bind is_binary fault k h stops = KeyStops-fault is_binary

absorb-key :
    (is_binary : Bool) (content : List ℕ) (config : CipherConfig) (key : CipherKey)
    → KeyStops is_binary (read_all (((if is_binary then 7 else 6), content) ∷ []) config key)
unfolding load
absorb-key true content config key = refl
absorb-key false content config key = inl refl

pub read_all-key :
    (fs : List Field) (is_binary : Bool) (content : List ℕ) (config : CipherConfig)
    (key : CipherKey)
    → AreReadable fs
    → KeyStops is_binary (read_all (fs ++ ((if is_binary then 7 else 6), content) ∷ []) config key)
read_all-key [] is_binary content config key h = absorb-key is_binary content config key
read_all-key (g ∷ []) is_binary content config key h =
    KeyStops-bind is_binary (absorb g config key) _ (h.0 config key)
      (λ r. absorb-key is_binary content r.0 r.1)
read_all-key (g ∷ (g' ∷ fs)) is_binary content config key h =
    KeyStops-bind is_binary (absorb g config key) _ (h.0 config key)
      (λ r. read_all-key (g' ∷ fs) is_binary content r.0 r.1 h.1)

pub AreReadable-append :
    (fs gs : List Field) → AreReadable fs → AreReadable gs → AreReadable (fs ++ gs)
AreReadable-append [] gs h k = k
AreReadable-append (f ∷ fs) gs h k = (h.0, AreReadable-append fs gs h.1 k)

OkOrFault-overwrite :
    (old : ℕ) (content : List ℕ) (f : ℕ → CipherConfig × CipherKey)
    → OkOrFault (overwrite old content >>= λ n. ok (f n))
unfolding overwrite
OkOrFault-overwrite old content f = go (leb (length content) 4) _
  where
    go : (b : Bool) (n : ℕ) → OkOrFault ((if b then ok n else fault) >>= λ n. ok (f n))
    go true n = tt
    go false n = tt

module _ (content : List ℕ) where
  pub algorithm-readable :
      (config : CipherConfig) (key : CipherKey) → OkOrFault (absorb (1, content) config key)
  unfolding load set_pointer
  algorithm-readable config key = tt

  pub hmac-readable :
      (config : CipherConfig) (key : CipherKey) → OkOrFault (absorb (2, content) config key)
  unfolding load set_pointer
  hmac-readable config key = tt

  pub compat-readable :
      (config : CipherConfig) (key : CipherKey) → OkOrFault (absorb (3, content) config key)
  unfolding load set_memory
  compat-readable config key = OkOrFault-overwrite config.page_size content _

  pub page-readable :
      (config : CipherConfig) (key : CipherKey) → OkOrFault (absorb (4, content) config key)
  unfolding load set_memory
  page-readable config key = OkOrFault-overwrite config.kdf_iter content _

pub iter-readable :
    (content : List ℕ) (config : CipherConfig) (key : CipherKey)
    → OkOrFault (absorb (5, content) config key)
unfolding load set_memory
iter-readable [] config key = tt
iter-readable (b ∷ content) config key = go (leb (length (b ∷ content)) 8)
  where
    go : (b : Bool) → OkOrFault (if b then ok (config, record key { buf = clobbered }) else fault)
    go true = tt
    go false = tt

pub AreReadable-if :
    (b : Bool) (f : Field)
    → ((config : CipherConfig) (key : CipherKey) → OkOrFault (absorb f config key))
    → AreReadable (if b then [] else f ∷ [])
AreReadable-if true f h = tt
AreReadable-if false f h = (h, tt)

pub AreReadable-algorithm :
    (type : ℕ) (default : List ℕ) (str : Option (List ℕ))
    → ((content : List ℕ) (config : CipherConfig) (key : CipherKey)
        → OkOrFault (absorb (type, content) config key))
    → AreReadable (algorithm_field type default str)
AreReadable-algorithm type default none h = tt
AreReadable-algorithm type default (some str) h =
    AreReadable-if (same_string str default) (type, str) (h str)
