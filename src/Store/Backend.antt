-- ===== src/Store/Backend.antt =====
-- cache/store/store.go: the `Store` interface, with an invariant that its operations keep. `Times`
-- are the two readings of the clock that a call may make.
use go.Common.{ℕ, ◌+◌, ◌≤◌, Bool, false, Option, none, some, List, Bytes, bytes_beq, ◌≡◌}
use go.Store.Options.{Options}

pub record Times : Type 0 where
  pub now : ℕ
  pub later : ℕ

pub record Backend (V : Type 0) : Type 1 where
  pub State : Type 0
  pub create : Options → State
  pub get : Times → Bytes → State → Option V × State
  pub set : Times → Bytes → V → State → State
  pub set_with_expiration : Times → Bytes → V → ℕ → State → State
  pub delete : Bytes → State → Bool × State
  pub clear : State → State
  pub len : State → ℕ
  pub keys : State → List Bytes
  pub get_value : Times → Bytes → State → Option V
  pub close : State → Option State  -- `none`: a panic, the channel is closed already
  pub IsValid : State → Type 0
  pub create-IsValid : (opts : Options) → IsValid (create opts)
  pub get-IsValid : (t : Times) (key : Bytes) (s : State) → IsValid s → IsValid (get t key s).1
  pub set-IsValid :
      (t : Times) (key : Bytes) (v : V) (s : State) → IsValid s → IsValid (set t key v s)
  pub set_with_expiration-IsValid :
      (t : Times) (key : Bytes) (v : V) (d : ℕ) (s : State)
      → IsValid s
      → IsValid (set_with_expiration t key v d s)
  pub delete-IsValid : (key : Bytes) (s : State) → IsValid s → IsValid (delete key s).1
  pub clear-IsValid : (s : State) → IsValid s → IsValid (clear s)
  -- After a deletion the key reads as absent.
  pub get_value-delete :
      (t : Times) (key : Bytes) (s : State) → IsValid s → get_value t key (delete key s).1 ≡ none
  pub get-get_value :
      (t : Times) (key : Bytes) (s : State) → IsValid s → (get t key s).0 ≡ get_value t key s

-- A store that a key reads from as it was last set: a read finds what the key's last `Set` stored, or
-- nothing.
pub record IsCoherent {V : Type 0} (b : Backend V) : Type 0 where
  pub create-none :
      (t : Times) (k : Bytes) (opts : Options) → b.get_value t k (b.create opts) ≡ none
  pub clear-none : (t : Times) (k : Bytes) (s : b.State) → b.get_value t k (b.clear s) ≡ none
  pub get-keeps :
      (t t' : Times) (key k : Bytes) (x : V) (s : b.State)
      → b.IsValid s
      → b.get_value t' k (b.get t key s).1 ≡ some x
      → b.get_value t' k s ≡ some x
  pub delete-keeps :
      (t' : Times) (key k : Bytes) (x : V) (s : b.State)
      → b.IsValid s
      → b.get_value t' k (b.delete key s).1 ≡ some x
      → b.get_value t' k s ≡ some x
  pub set-own :
      (t t' : Times) (key : Bytes) (w x : V) (s : b.State)
      → b.IsValid s
      → b.get_value t' key (b.set t key w s) ≡ some x
      → x ≡ w
  pub set-other :
      (t t' : Times) (key k : Bytes) (w x : V) (s : b.State)
      → b.IsValid s
      → bytes_beq key k ≡ false
      → b.get_value t' k (b.set t key w s) ≡ some x
      → b.get_value t' k s ≡ some x
  pub set_with_expiration-own :
      (t t' : Times) (key : Bytes) (w x : V) (d : ℕ) (s : b.State)
      → b.IsValid s
      → b.get_value t' key (b.set_with_expiration t key w d s) ≡ some x
      → x ≡ w
  pub set_with_expiration-other :
      (t t' : Times) (key k : Bytes) (w x : V) (d : ℕ) (s : b.State)
      → b.IsValid s
      → bytes_beq key k ≡ false
      → b.get_value t' k (b.set_with_expiration t key w d s) ≡ some x
      → b.get_value t' k s ≡ some x

-- A store that keeps what it was last given for a key, where the entry fits into it and until its
-- time is past.
pub record IsRetentive {V : Type 0} (b : Backend V) : Type 1 where
  pub Fits : b.State → Bytes → V → Type 0
  pub set-reads :
      (t t' : Times) (key : Bytes) (w : V) (s : b.State)
      → b.IsValid s
      → Fits s key w
      → b.get_value t' key (b.set t key w s) ≡ some w
  pub set_with_expiration-reads :
      (t t' : Times) (key : Bytes) (w : V) (d : ℕ) (s : b.State)
      → b.IsValid s
      → Fits s key w
      → t.later ≤ t.now + d
      → t'.now ≤ t.now + d
      → b.get_value t' key (b.set_with_expiration t key w d s) ≡ some w
