-- ===== src/Tcrypto/Tests.antt =====
-- A library of contexts that behaves as documented, and the theorems on handles at concrete inputs.
use sgx_sdk_rs.Base.{
  ℕ, suc, ◌≤◌, ◌≡◌, ◌≢◌, inl, inr, sym, ap, ◌∙◌, Bool-cases, ==_iff, refl, arith, List, [], ◌∷◌,
  ◌++◌, true, false, Option, none, some, ◌==◌, ok, sgx_success, u32_max,
}
use sgx_sdk_rs.Tcrypto.Context
use sgx_sdk_rs.Tcrypto.Context.{ContextLib, Handle, new}
use sgx_sdk_rs.Tcrypto.Context.Spec.{
  Absorbed, Contexts, with_context, with_context_kept, IsContextLib, NeverRefuses, IsWrappers,
}
use sgx_sdk_rs.Tcrypto.Context.Methods.{Reached, Step, Owns, ClosedOr, methods-Owns, close-releases}
use sgx_sdk_rs.Tcrypto.Context.Pieces
use sgx_sdk_rs.Tcrypto.Context.Pieces.{hash_pieces}
use sgx_sdk_rs.Tcrypto.Sha256
use sgx_sdk_rs.Tcrypto.Sha384
use sgx_sdk_rs.Tcrypto.Sha1
use sgx_sdk_rs.Tcrypto.Cmac
use sgx_sdk_rs.Tcrypto.Hmac
use sgx_sdk_rs.Tcrypto.OneCall
use sgx_sdk_rs.Tcrypto.OneCall.Macs.{mac_handles-one_call}

different : {n j : ℕ} → suc n ≤ j → (j == n) ≡ false
different h = ground (arith, h)

-- Contexts get the addresses 1, 2, 3, ... in turn.
record World : Type 0 where
  next : ℕ
  above_null : next ≢ 0
  kept : Contexts
  fresh : (h : ℕ) → next ≤ h → kept h ≡ none

-- An operation on one context, which makes none of nothing.
abbrev change : (f : Option Absorbed → Option Absorbed) → f none ≡ none → ℕ → World → World
change f still h w = record w {
  kept = with_context w.kept h (f (w.kept h));
  fresh = λ j above. elim (Bool-cases (j == h)) [
    | inl e ↦ rw (e, ap f (ap w.kept (sym ((==_iff _ _).0 e)) ∙ w.fresh j above)) still
    | inr e ↦ rw e (w.fresh j above)
  ];
}

abbrev append_text : List ℕ → Option Absorbed → Option Absorbed
append_text src none = none
append_text src (some c) = some (record c { text = c.text ++ src })

-- The MAC is the key followed by the text.
abbrev read_tag : Option Absorbed → List ℕ
read_tag none = []
read_tag (some c) = c.key ++ c.text

abbrev toy : ContextLib World
toy = record {
  msg = λ key src len. (sgx_success, key ++ src);
  init = λ key w. (
    sgx_success,
    w.next,
    record {
      next = suc w.next;
      above_null = λ e. absurd (omega (arith, e));
      kept = with_context w.kept w.next (some (record { key = key; text = [] }));
      fresh = λ j above. rw (different above) (w.fresh j (omega (arith, above)));
    },
  );
  update = λ src len h w. (sgx_success, change (append_text src) refl h w);
  final = λ h w. (sgx_success, read_tag (w.kept h), w);
  close = λ h w. (sgx_success, change (λ _. none) refl h w);
}

toy_IsContextLib : IsContextLib toy u32_max
toy_IsContextLib = record {
  view = λ w. w.kept;
  tag = λ key text. key ++ text;
  context = record {
    init_opens = λ key w _. (w.above_null, w.fresh w.next (omega arith), refl);
    init_fails = λ key w bad. absurd (bad refl);
    final_keeps = λ h w c at. (c.text, with_context_kept w.kept h (some c) at);
    final_tag = λ h w c at _. rw at refl;
    close_frees = λ h w c at _. refl;
    close_fails = λ h w c at bad. absurd (bad refl);
  };
  update_keeps = λ src len h w c at. (c.text ++ src, rw at refl);
  update_appends = λ src h w c at short _. rw at refl;
  msg_tag = λ key src short _. refl;
}

toy_NeverRefuses : NeverRefuses toy_IsContextLib
toy_NeverRefuses = record {
  opens = λ key w. refl;
  absorbs = λ src h w c at filled short. refl;
  finishes = λ h w c at. refl;
  answers = λ key src filled short. refl;
}

abbrev nothing : World
nothing = record {
  next = 1;
  above_null = λ e. absurd (omega (arith, e));
  kept = λ _. none;
  fresh = λ h above. refl;
}

abbrev pieces : List (List ℕ)
pieces = (1 ∷ 2 ∷ []) ∷ (3 ∷ []) ∷ []

hash_run : hash_pieces (Hmac.rsgx_hmac256 toy) (9 ∷ []) pieces nothing ≡ ok (9 ∷ 1 ∷ 2 ∷ 3 ∷ [])
unfolding hash_pieces Pieces.feed Context.init Context.update_slice Context.get_hash
    Hmac.rsgx_hmac256_init Hmac.rsgx_hmac256_update_slice Hmac.rsgx_hmac256_final
hash_run = refl

-- A handle that was opened, and the library behind it.
abbrev opened : Handle
opened = record { handle = 1; initflag = true }

abbrev behind : World
behind = (toy.init [] nothing).2

abbrev sha256_laws : IsWrappers (Sha256.rsgx_sha256 toy) u32_max
sha256_laws = OneCall.rsgx_sha256-IsWrappers toy toy_IsContextLib

reached : Reached (Sha256.rsgx_sha256 toy) nothing opened behind
unfolding Context.init Sha256.rsgx_sha256_init
reached = Reached.calls Reached.is_new (Step.inits [] new nothing)

methods-Owns_example :
    Owns (Sha256.rsgx_sha256 toy) sha256_laws (sha256_laws.view nothing) opened behind
methods-Owns_example =
    methods-Owns (Sha256.rsgx_sha256 toy) sha256_laws nothing opened behind reached

close-releases_example :
    ClosedOr
      (Sha256.rsgx_sha256 toy)
      sha256_laws
      (sha256_laws.view nothing)
      opened
      (Context.close (Sha256.rsgx_sha256 toy) opened behind)
    × (Context.drop_handle (Sha256.rsgx_sha256 toy) opened behind
        ≡ (Context.close (Sha256.rsgx_sha256 toy) opened behind).world)
close-releases_example =
    close-releases (Sha256.rsgx_sha256 toy) sha256_laws nothing opened behind reached

sgx_sha_handles-one_call_example :
    (hash_pieces (Sha256.rsgx_sha256 toy) [] pieces nothing
      ≡ Sha256.rsgx_sha256_slice toy (1 ∷ 2 ∷ 3 ∷ []))
    × (hash_pieces (Sha384.rsgx_sha384 toy) [] pieces nothing
        ≡ Sha384.rsgx_sha384_slice toy (1 ∷ 2 ∷ 3 ∷ []))
    × (hash_pieces (Sha1.rsgx_sha1 toy) [] pieces nothing
        ≡ Sha1.rsgx_sha1_slice toy (1 ∷ 2 ∷ 3 ∷ []))
sgx_sha_handles-one_call_example =
    OneCall.sgx_sha_handles-one_call toy toy_IsContextLib (omega arith) toy_NeverRefuses pieces
      nothing (omega arith, (omega arith, tt)) (omega arith, (omega arith, tt)) (omega arith)
      (omega arith)

mac_handles-one_call_example :
    (hash_pieces (Cmac.rsgx_cmac128 toy) (9 ∷ []) pieces nothing
      ≡ Cmac.rsgx_rijndael128_cmac_slice toy (9 ∷ []) (1 ∷ 2 ∷ 3 ∷ []))
    × (hash_pieces (Hmac.rsgx_hmac256 toy) (9 ∷ []) pieces nothing
        ≡ Hmac.rsgx_hmac_sha256_slice toy (9 ∷ []) (1 ∷ 2 ∷ 3 ∷ []))
mac_handles-one_call_example =
    mac_handles-one_call toy toy_IsContextLib (omega arith) toy_NeverRefuses (9 ∷ []) pieces nothing
      (omega arith, (omega arith, tt)) (omega arith, (omega arith, tt)) (omega arith) (omega arith)
