-- ===== src/Urts/Enclave/Tests.antt =====
-- A runtime that numbers its enclaves, and the theorem on owners there.
use sgx_sdk_rs.Base.{
  ℕ, suc, ◌+◌, ◌≤◌, ◌≡◌, refl, arith, [], ◌∷◌, true, false, ◌==◌, Bool-cases, inl, inr, sgx_success,
}
use sgx_sdk_rs.Urts.Enclave.{
  UrtsLib, Started, SgxEnclave, Token, MiscAttribute, create_from_buffer, create_enclave,
  drop_enclave, clone_enclave, destroy,
}
use sgx_sdk_rs.Urts.Enclave.Ownership.{
  Live, mark, Starts, IsUrts, Step, Reached, owners, number, Reached-owners,
}

-- Enclaves get the identities 1, 2, 3, ... in turn.
record World : Type 0 where
  next : ℕ
  loaded : Live
  fresh : (id : ℕ) → next ≤ id → loaded id ≡ false

different : {n j : ℕ} → suc n ≤ j → (j == n) ≡ false
different h = ground (arith, h)

abbrev load : MiscAttribute → World → Started World
load misc w = record {
  status = sgx_success;
  enclave_id = w.next;
  misc_attr = misc;
  world = record {
    next = suc w.next;
    loaded = mark w.loaded w.next true;
    fresh = λ id above. rw (different above) (w.fresh id (omega (arith, above)));
  };
}

-- What is unloaded stays so.
unload_fresh : (w : World) (id j : ℕ) → w.next ≤ j → mark w.loaded id false j ≡ false
unload_fresh w id j above = elim (Bool-cases (j == id)) [
  | inl same ↦ rw same refl
  | inr other ↦ rw other (w.fresh j above)
]

abbrev toy_urts : UrtsLib World
toy_urts = record {
  sgx_create_enclave = λ file debug token misc w. (token, load misc w);
  sgx_create_encrypted_enclave = λ file debug token misc key w. (token, load misc w);
  sgx_create_enclave_ex = λ file debug token misc features pointers w. (token, load misc w);
  sgx_create_enclave_from_buffer_ex = λ buffer size debug misc features pointers w. load misc w;
  sgx_destroy_enclave = λ id w.
      (sgx_success, record w { loaded = mark w.loaded id false; fresh = unload_fresh w id });
  sgx_get_target_info = λ id w. (sgx_success, [], w);
  t_global_init_ecall = λ eid id path len w. (sgx_success, w);
  t_global_exit_ecall = λ eid w. (sgx_success, w);
}

load-Starts : (misc : MiscAttribute) (w : World) → Starts (λ v. v.loaded) w (load misc w)
load-Starts misc w = (λ _. (w.fresh w.next (omega arith), refl), λ bad. absurd (bad refl))

abbrev toy_IsUrts : IsUrts toy_urts
toy_IsUrts = record {
  live = λ w. w.loaded;
  creates = λ file debug token misc w. load-Starts misc w;
  creates_encrypted = λ file debug token misc key w. load-Starts misc w;
  creates_ex = λ file debug token misc features pointers w. load-Starts misc w;
  creates_from_buffer = λ buffer size debug misc features pointers w. load-Starts misc w;
  destroys = λ id w. refl;
  init_keeps = λ eid id path len w. refl;
  exit_keeps = λ eid w. refl;
}

abbrev empty : World
empty = record { next = 1; loaded = λ _. false; fresh = λ _ _. refl }

abbrev misc : MiscAttribute
misc = record { secs_attr = record { flags = 4; xfrm = 3 }; misc_select = 0 }

abbrev token : Token
token = record { launch_token = []; launch_token_updated = 0 }

abbrev from_memory : SgxEnclave
from_memory = record { id = 1; debug = 1; path = [] }

abbrev from_disk : SgxEnclave
from_disk = record { id = 2; debug = 0; path = 97 ∷ [] }

abbrev after_two : World
after_two = (load misc (load misc empty).world).world

abbrev after_drop : World
after_drop = (toy_urts.sgx_destroy_enclave 1 after_two).1

-- One enclave from a buffer, one from a file, and the first one is destroyed.
one_left : Reached toy_urts true empty (from_disk ∷ [], after_drop)
unfolding create_from_buffer create_enclave destroy
one_left =
    Reached.goes
      (Reached.goes (Reached.goes Reached.is_start (Step.from_buffer (1 ∷ []) 1 misc 0 [] [] empty))
        (Step.from_file (97 ∷ []) 0 token misc (from_memory ∷ []) (load misc empty).world))
      (Step.drops (from_disk ∷ []) [] from_memory after_two)

Reached-owners_example :
    ((j : ℕ) → number (after_drop.loaded j) ≡ number (empty.loaded j) + owners j (from_disk ∷ []))
    × ((e : SgxEnclave)
        → (drop_enclave toy_urts true (clone_enclave e) after_drop).loaded e.id ≡ false)
Reached-owners_example =
    Reached-owners toy_urts true toy_IsUrts empty (from_disk ∷ []) after_drop one_left
