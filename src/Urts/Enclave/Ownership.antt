-- ===== src/Urts/Enclave/Ownership.antt =====
-- sgx-urts/src/enclave.rs: the enclaves of the runtime and the values of `SgxEnclave` that own them.
use sgx_sdk_rs.Base.{
  ℕ, ◌+◌, ◌≡◌, ◌≢◌, inl, inr, refl, ap, ◌∙◌, arith, List, [], ◌∷◌, ◌++◌, length, Bool, true, false,
  ◌==◌, ==_iff, if◌then◌else◌, Bool-cases, either, sgx_success, ok, err,
}
use sgx_sdk_rs.Urts.Enclave.{
  UrtsLib, Started, Launch, SgxEnclave, Token, MiscAttribute, ExFeature, launched, has_nul,
  rsgx_create_enclave, rsgx_create_encrypted_enclave, rsgx_create_enclave_with_workers,
  rsgx_create_enclave_from_buffer_ex, rsgx_destroy_enclave, adopt, init_enclave, exit_enclave,
  create_enclave, create_encrypt, create_with_workers, create_from_buffer, drop_enclave, destroy,
  clone_enclave,
}

-- Which enclaves are loaded.
abbrev pub Live : Type 0
Live = ℕ → Bool

abbrev pub mark : Live → ℕ → Bool → Live
mark live id b j = if j == id then b else live j

-- A start gives an enclave an identity that no loaded one has, or changes nothing.
abbrev pub Starts : {W : Type 0} → (W → Live) → W → Started W → Type 0
Starts live w s =
    (s.status ≡ sgx_success
      → (live w s.enclave_id ≡ false) × (live s.world ≡ mark (live w) s.enclave_id true))
    × (s.status ≢ sgx_success → live s.world ≡ live w)

-- What the runtime documents.
pub record IsUrts {W : Type 0} (urts : UrtsLib W) : Type 0 where
  pub live : W → Live
  pub creates :
      (file : List ℕ) (debug : ℕ) (token : Token) (misc : MiscAttribute) (w : W)
      → Starts live w (urts.sgx_create_enclave file debug token misc w).1
  pub creates_encrypted :
      (file : List ℕ) (debug : ℕ) (token : Token) (misc : MiscAttribute) (key : List ℕ) (w : W)
      → Starts live w (urts.sgx_create_encrypted_enclave file debug token misc key w).1
  pub creates_ex :
      (file : List ℕ) (debug : ℕ) (token : Token) (misc : MiscAttribute) (features : ℕ)
      (pointers : List ExFeature) (w : W)
      → Starts live w (urts.sgx_create_enclave_ex file debug token misc features pointers w).1
  pub creates_from_buffer :
      (buffer : List ℕ) (size debug : ℕ) (misc : MiscAttribute) (features : ℕ)
      (pointers : List ExFeature) (w : W)
      → Starts live w
          (urts.sgx_create_enclave_from_buffer_ex buffer size debug misc features pointers w)
  pub destroys : (id : ℕ) (w : W) → live (urts.sgx_destroy_enclave id w).1 ≡ mark (live w) id false
  pub init_keeps :
      (eid id : ℕ) (path : List ℕ) (len : ℕ) (w : W)
      → live (urts.t_global_init_ecall eid id path len w).1 ≡ live w
  pub exit_keeps : (eid : ℕ) (w : W) → live (urts.t_global_exit_ecall eid w).1 ≡ live w

abbrev pub number : Bool → ℕ
number true = 1
number false = 0

-- How many of the values own the enclave `j`.
abbrev pub owners : ℕ → List SgxEnclave → ℕ
owners j [] = 0
owners j (e ∷ es) = number (j == e.id) + owners j es

owners-append : (j : ℕ) (es fs : List SgxEnclave) → owners j (es ++ fs) ≡ owners j es + owners j fs
owners-append j [] fs = omega arith
owners-append j (e ∷ es) fs = omega (arith, owners-append j es fs)

-- The values behind a call that may have made one.
abbrev pub owned_after : {W : Type 0} → List SgxEnclave → Launch W SgxEnclave → List SgxEnclave × W
owned_after es l = elim l.result [ ok e ↦ (e ∷ es, l.world) | err _ ↦ (es, l.world) ]

module _ {W : Type 0} (urts : UrtsLib W) (global_init : Bool) where
  -- A program starts enclaves and drops their owners, in any order.
  pub data Step : List SgxEnclave × W → List SgxEnclave × W → Type 0 where
    from_file :
        (file : List ℕ) (debug : ℕ) (token : Token) (misc : MiscAttribute) (es : List SgxEnclave)
        (w : W)
        → Step (es, w) (owned_after es (create_enclave urts global_init file debug token misc w).1)
    from_encrypted_file :
        (file : List ℕ) (debug : ℕ) (token : Token) (misc : MiscAttribute) (key : List ℕ)
        (es : List SgxEnclave) (w : W)
        → Step
            (es, w)
            (owned_after es (create_encrypt urts global_init file debug token misc key w).1)
    with_workers :
        (file : List ℕ) (debug : ℕ) (token : Token) (misc : MiscAttribute) (u t : ℕ)
        (es : List SgxEnclave) (w : W)
        → Step
            (es, w)
            (owned_after es (create_with_workers urts global_init file debug token misc u t w).1)
    from_buffer :
        (buffer : List ℕ) (debug : ℕ) (misc : MiscAttribute) (features : ℕ)
        (pointers : List ExFeature) (es : List SgxEnclave) (w : W)
        → Step
            (es, w)
            (owned_after es
              (create_from_buffer urts global_init buffer debug misc features pointers w))
    drops :
        (before after : List SgxEnclave) (e : SgxEnclave) (w : W)
        → Step (before ++ e ∷ after, w) (before ++ after, destroy urts global_init e w)

  pub data Reached (start : W) : List SgxEnclave × W → Type 0 where
    is_start : Reached start ([], start)
    goes : {s s' : List SgxEnclave × W} → Reached start s → Step s s' → Reached start s'

  module _ (laws : IsUrts urts) where
    open laws use {
      live, creates, creates_encrypted, creates_ex, creates_from_buffer, destroys, init_keeps,
      exit_keeps,
    }

    -- Every loaded enclave is one of the start or has one owner, and no other has an owner.
    abbrev pub Accounted : Live → List SgxEnclave × W → Type 0
    Accounted first s = (j : ℕ) → number (live s.1 j) ≡ number (first j) + owners j s.0

    live_init : (e : SgxEnclave) (w : W) → live (init_enclave urts global_init e w) ≡ live w
    unfolding init_enclave
    live_init e w =
        either (λ w'. live w' ≡ live w) global_init _ w
          (λ _. init_keeps e.id e.id e.path (length e.path) w) (λ _. refl)

    live-drop_enclave :
        (e : SgxEnclave) (w : W)
        → live (drop_enclave urts global_init e w) ≡ mark (live w) e.id false
    unfolding drop_enclave exit_enclave rsgx_destroy_enclave
    live-drop_enclave e w =
        destroys e.id (exit_enclave urts global_init e w)
        ∙ ap (λ l. mark l e.id false)
            (either (λ w'. live w' ≡ live w) global_init _ w (λ _. exit_keeps e.id w) (λ _. refl))

    adopt_started :
        (debug : ℕ) (path : List ℕ) (es : List SgxEnclave) (s : Started W)
        → (s.status == sgx_success) ≡ true
        → let e : SgxEnclave = record { id = s.enclave_id; debug = debug; path = path } in
          owned_after es (adopt urts global_init debug path (launched s))
          ≡ (e ∷ es, init_enclave urts global_init e s.world)
    unfolding adopt
    adopt_started debug path es s good = rw (good, adopt) refl

    adopt_refused :
        (debug : ℕ) (path : List ℕ) (es : List SgxEnclave) (s : Started W)
        → (s.status == sgx_success) ≡ false
        → owned_after es (adopt urts global_init debug path (launched s)) ≡ (es, s.world)
    unfolding adopt
    adopt_refused debug path es s bad = rw (bad, adopt) refl

    -- One more enclave, and one more owner of it.
    one_more :
        (first : ℕ) (j id owned : ℕ) (was : Bool)
        → number was ≡ first + owned
        → (j ≡ id → was ≡ false)
        → number (if j == id then true else was) ≡ first + (number (j == id) + owned)
    one_more first j id owned was counted fresh = ground (arith, fresh)

    adopt-Accounted :
        (first : Live) (debug : ℕ) (path : List ℕ) (es : List SgxEnclave) (w : W) (s : Started W)
        → Starts live w s
        → Accounted first (es, w)
        → Accounted first (owned_after es (adopt urts global_init debug path (launched s)))
    adopt-Accounted first debug path es w s starts accounted j =
        elim (Bool-cases (s.status == sgx_success)) [
          | inr bad ↦
              rw (adopt_refused debug path es s bad, starts.1 (λ e. differ e bad)) (accounted j)
          | inl good ↦
              let e : SgxEnclave = record { id = s.enclave_id; debug = debug; path = path } in
              let (fresh, grown) = starts.0 ((==_iff _ _).0 good) in
              rw (adopt_started debug path es s good, live_init e s.world, grown)
                (one_more (number (first j)) j s.enclave_id (owners j es) (live w j) (accounted j)
                  (λ same. rw same fresh))
        ]
      where
        differ : {a b : ℕ} → a ≡ b → (a == b) ≡ false → ⊥
        differ e h = ground arith

    no_path-Accounted :
        (first : Live) (test : Bool) (token token' : Token) (es : List SgxEnclave) (w : W)
        (refused l : Launch W SgxEnclave)
        → Accounted first (owned_after es refused)
        → Accounted first (owned_after es l)
        → Accounted first (
            owned_after es
              (if◌then◌else◌ {A = Token × Launch W SgxEnclave} test (token, refused) (token', l)).1)
    no_path-Accounted first test token token' es w refused l h k =
        either (λ (r : Token × Launch W SgxEnclave). Accounted first (owned_after es r.1)) test
          (token, refused) (token', l) (λ _. h) (λ _. k)

    one_less :
        (j id a b first : ℕ) (was : Bool)
        → number was ≡ first + (a + (number (j == id) + b))
        → number (if j == id then false else was) ≡ first + (a + b)
    one_less j id a b first true counted = ground arith
    one_less j id a b first false counted = ground arith

    Step-Accounted :
        (first : Live) (s s' : List SgxEnclave × W)
        → Step s s'
        → Accounted first s
        → Accounted first s'
    unfolding create_enclave create_encrypt create_with_workers create_from_buffer
        rsgx_create_enclave rsgx_create_encrypted_enclave rsgx_create_enclave_with_workers
        rsgx_create_enclave_from_buffer_ex destroy
    Step-Accounted first _ _ (from_file file debug token misc es w) = λ accounted.
        no_path-Accounted first (has_nul file) _ _ es w _ _ accounted
          (adopt-Accounted first debug file es w _ (creates file debug token misc w) accounted)
    Step-Accounted first _ _ (from_encrypted_file file debug token misc key es w) = λ accounted.
        no_path-Accounted first (has_nul file) _ _ es w _ _ accounted (
          adopt-Accounted first debug file es w _ (creates_encrypted file debug token misc key w)
            accounted)
    Step-Accounted first _ _ (with_workers file debug token misc u t es w) = λ accounted.
        no_path-Accounted first (has_nul file) _ _ es w _ _ accounted (
          adopt-Accounted first debug file es w _ (creates_ex file debug token misc _ _ w)
            accounted)
    Step-Accounted first _ _ (from_buffer buffer debug misc features pointers es w) = λ accounted.
        either
          (λ (l : Launch W ℕ). Accounted first (owned_after es (adopt urts global_init debug [] l)))
          (length buffer == 0) _ _ (λ _. unfold adopt in accounted)
          (λ _.
            adopt-Accounted first debug [] es w _
              (creates_from_buffer buffer (length buffer) debug misc features pointers w) accounted)
    Step-Accounted first _ _ (drops before after e w) = λ accounted j.
        rw (live-drop_enclave e w, owners-append j before after)
          (one_less j e.id (owners j before) (owners j after) (number (first j)) (live w j)
            (rw owners-append at (accounted j)))

    Reached-Accounted :
        (start : W) (s : List SgxEnclave × W) → Reached start s → Accounted (live start) s
    Reached-Accounted start _ is_start = λ j. omega arith
    Reached-Accounted start _ (goes {s = s} {s' = s'} before step) =
        Step-Accounted (live start) s s' step (Reached-Accounted start s before)

    -- A program starts enclaves by the four functions and drops their owners, in any order and with
    -- any answers of a runtime that keeps to its documentation. Then every enclave that is loaded was
    -- loaded at the start and has no owner, or was not and has exactly one; no other has an owner. But
    -- a clone has the identity of the value it was made from: once it is dropped, that value owns an
    -- enclave that is not loaded.
    pub Reached-owners :
        (start : W) (es : List SgxEnclave) (w : W)
        → Reached start (es, w)
        → ((j : ℕ) → number (live w j) ≡ number (live start j) + owners j es)
          × ((e : SgxEnclave)
              → live (drop_enclave urts global_init (clone_enclave e) w) e.id ≡ false)
    unfolding clone_enclave
    Reached-owners start es w reached =
        (Reached-Accounted start (es, w) reached, λ e. rw (live-drop_enclave e w) (ground arith))
