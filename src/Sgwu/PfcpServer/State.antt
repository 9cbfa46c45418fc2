-- ===== src/Sgwu/PfcpServer/State.antt =====
-- internal/sgwu/pfcpserver/server.go: what the server keeps, what it sends, and how a handler can end.
use vectorcore_sgw.Common.{ℕ, ◌≡◌, refl, String, Bool, List, [], ◌∷◌, any, nat_beq, if◌then◌else◌}
use vectorcore_sgw.Common.Addr.{Addr}
use vectorcore_sgw.Common.Results.{Result, ok, err, Yields}
use vectorcore_sgw.Sgwu.Session.{Session, Heap, Store}

-- How a handler can end: with a value, with an error that it answers, by a panic of the process, or
-- not, where AllocTEID has drawn all the random numbers that the model was given.
pub data Attempt {ℓ} (E : Type 0) (A : Type ℓ) : Type ℓ where
  done : A → Attempt E A
  refused : E → Attempt E A
  panicked : Attempt E A
  waiting : Attempt E A

-- How a message is dealt with, once refusals are answered.
pub data Ending {ℓ} (A : Type ℓ) : Type ℓ where
  ended : A → Ending A
  crashed : Ending A
  unended : Ending A

infixl 5 ◌>>=◌
abbrev pub ◌>>=◌ {ℓ κ} :
    {E : Type 0} {A : Type ℓ} {B : Type κ} → Attempt E A → (A → Attempt E B) → Attempt E B
done a >>= f = f a
refused e >>= f = refused e
panicked >>= f = panicked
waiting >>= f = waiting

-- A `(value, error)` pair as an attempt.
abbrev pub attempt {ℓ} : {E : Type 0} {A : Type ℓ} → Result E A → Attempt E A
attempt (ok a) = done a
attempt (err e) = refused e

pub record PeerRecord : Type 0 where
  pub node_id_key : String
  pub recovery_ts : ℕ
  pub last_seen : ℕ
  pub last_addr : String

-- What New derives from the configuration, and the parts that are wired to the server. An allowed net
-- is its test on addresses. The fast path says whether it takes the rules of a session.
pub record Config : Type 0 where
  pub local_node_id : Addr
  pub local_ip : Addr
  pub access_ip : Addr
  pub core_ip : Addr
  pub local_ts : ℕ
  pub allowed_nets : List (String → Bool)
  pub has_bpf : Bool
  pub installs : Session → Bool
  pub updates : Session → Bool
  pub sends_end_markers : Bool
  pub tracks_peers : Bool

-- The source address of a packet: `addr.IP.String()` and `addr.String()`.
pub record Source : Type 0 where
  pub ip : String
  pub text : String

-- Sessions and peer records are references into heaps; two keys of `peers` may share a record.
pub record Server : Type 0 where
  pub heap : Heap
  pub next_session : ℕ
  pub store : Store
  pub peer_at : ℕ → PeerRecord
  pub next_peer : ℕ
  pub peers : List (String × ℕ)

-- What a handler does to the outside, in order.
pub data Output : Type 0 where
  reply : List ℕ → Output
  end_marker_to : ℕ → Addr → Output
  path_peer : Addr → Output
  remove_rules : ℕ → Output

-- `*p = v`
abbrev pub set_at {ℓ} : {A : Type ℓ} → (ℕ → A) → ℕ → A → ℕ → A
set_at f r v k = if nat_beq k r then v else f k

abbrev pub is_allowed : Config → String → Bool
is_allowed cfg ip = elim cfg.allowed_nets [ [] ↦ Bool.true | n ∷ ns ↦ any (λ net. net ip) (n ∷ ns) ]

-- A statement about the value of an attempt, and about the state that a message leaves.
abbrev pub Gives {ℓ} : {E : Type 0} {A : Type ℓ} → (A → Type 0) → Attempt E A → Type 0
Gives P (done a) = P a
Gives P (refused e) = Unit
Gives P panicked = Unit
Gives P waiting = Unit

abbrev pub Leaves : (Server → Type 0) → Ending (Server × List Output) → Type 0
Leaves P (ended r) = P r.0
Leaves P crashed = Unit
Leaves P unended = Unit

pub Gives-bind {ℓ κ} :
    {E : Type 0} {A : Type ℓ} {B : Type κ} (P : B → Type 0) (m : Attempt E A) (f : A → Attempt E B)
    → ((a : A) → Gives P (f a))
    → Gives P (m >>= f)
Gives-bind P (done a) f h = h a
Gives-bind P (refused e) f h = tt
Gives-bind P panicked f h = tt
Gives-bind P waiting f h = tt

-- The same, with a statement about what the first part gives.
pub Gives-then {ℓ κ} :
    {E : Type 0} {A : Type ℓ} {B : Type κ} (Q : A → Type 0) (P : B → Type 0) (m : Attempt E A)
    (f : A → Attempt E B)
    → Gives Q m
    → ((a : A) → Q a → Gives P (f a))
    → Gives P (m >>= f)
Gives-then Q P (done a) f q h = h a q
Gives-then Q P (refused e) f q h = tt
Gives-then Q P panicked f q h = tt
Gives-then Q P waiting f q h = tt

pub Gives-imp {ℓ} :
    {E : Type 0} {A : Type ℓ} (Q P : A → Type 0) (m : Attempt E A)
    → Gives Q m
    → ((a : A) → Q a → P a)
    → Gives P m
Gives-imp Q P (done a) q h = h a q
Gives-imp Q P (refused e) q h = tt
Gives-imp Q P panicked q h = tt
Gives-imp Q P waiting q h = tt

pub Gives-attempt {ℓ} :
    {E : Type 0} {A : Type ℓ} (Q : A → Type 0) (r : Result E A) → Yields Q r → Gives Q (attempt r)
Gives-attempt Q (ok a) q = q
Gives-attempt Q (err e) q = tt

pub data Case {ℓ} {E : Type 0} {A : Type ℓ} (m : Attempt E A) : Type ℓ where
  is_done : (a : A) → m ≡ done a → Case m
  is_refused : (e : E) → m ≡ refused e → Case m
  is_panicked : m ≡ panicked → Case m
  is_waiting : m ≡ waiting → Case m

pub Attempt-cases {ℓ} : {E : Type 0} {A : Type ℓ} (m : Attempt E A) → Case m
Attempt-cases (done a) = is_done a refl
Attempt-cases (refused e) = is_refused e refl
Attempt-cases panicked = is_panicked refl
Attempt-cases waiting = is_waiting refl
