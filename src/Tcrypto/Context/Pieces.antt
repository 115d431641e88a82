-- ===== src/Tcrypto/Context/Pieces.antt =====
-- A hash or MAC computed in pieces over a handle of sgx-tcrypto/src/crypto.rs: init, one update for
-- each piece, get_hash.
use sgx_sdk_rs.Base.{
  ℕ, ◌≤◌, ◌<◌, ap, ◌≡◌, refl, ◌∙◌, arith, List, [], ◌∷◌, ◌++◌, true, some, length, ◌==◌, Result, ok,
  err, from_status, sgx_success, sym, either, ==_iff, on_result,
}
use mathlib.Core.List.{append_assoc, append-nil}
use mathlib.Core.Path.{subst}
use sgx_sdk_rs.Tcrypto.Context.{Wrappers, Handle, Outcome, new, init, update_slice, get_hash}
use sgx_sdk_rs.Tcrypto.Context.Spec.{Absorbed, with_context_self, IsWrappers}

abbrev pub concat : List (List ℕ) → List ℕ
concat [] = []
concat (piece ∷ pieces) = piece ++ concat pieces

abbrev pub AllShort : ℕ → List (List ℕ) → Type 0
AllShort bound [] = Unit {0}
AllShort bound (piece ∷ pieces) = (length piece ≤ bound) × AllShort bound pieces

abbrev pub AllFilled : List (List ℕ) → Type 0
AllFilled [] = Unit {0}
AllFilled (piece ∷ pieces) = (0 < length piece) × AllFilled pieces

from_status-success :
    {A : Type 0} (ret : ℕ) (a b : A) → from_status ret a ≡ ok b → (ret ≡ sgx_success) × (a ≡ b)
from_status-success ret a b h = ground arith

ok-ne-err : {r : Result (Unit {0})} {e : ℕ} → r ≡ ok tt → r ≡ err e → ⊥
ok-ne-err good bad = cc

module _ {W : Type 0} (rsgx : Wrappers W) where
  -- A client's loop: every piece goes to `update_slice`, up to the first error.
  unfoldable pub feed : List (List ℕ) → Handle → W → Outcome W (Unit {0})
  feed [] h w = record { result = ok tt; this = h; world = w }
  feed (piece ∷ pieces) h w =
      let o = update_slice rsgx piece h w in
      elim o.result [
        | ok _ ↦ feed pieces o.this o.world
        | err e ↦ record { result = err e; this = o.this; world = o.world }
      ]

  -- And the whole client, on a new handle.
  unfoldable pub hash_pieces : List ℕ → List (List ℕ) → W → Result (List ℕ)
  hash_pieces key pieces w =
      let opened = init rsgx key new w in
      elim opened.result [
        | err e ↦ err e
        | ok _ ↦
            let fed = feed pieces opened.this opened.world in
            elim fed.result [ err e ↦ err e | ok _ ↦ (get_hash rsgx fed.this fed.world).result ]
      ]

  module _ {bound : ℕ} (laws : IsWrappers rsgx bound) where
    open laws use {view, tag, key_of, context, slice}
    open laws.context use {init_opens, final_tag}

    -- The handle is initialised and its context has absorbed `text`.
    record Holds (key text : List ℕ) (h : Handle) (w : W) : Type 0 where
      on : h.initflag ≡ true
      at : view w h.handle ≡ some (record { key = key; text = text })

    Holds-init :
        (key : List ℕ) (w : W)
        → (init rsgx key new w).result ≡ ok tt
        → Holds (key_of key) [] (init rsgx key new w).this (init rsgx key new w).world
    unfolding init
    Holds-init key w good =
        either
          (λ (o : Outcome W (Unit {0})). o.result ≡ ok tt → Holds (key_of key) [] o.this o.world)
          ((rsgx.init key w).0 == sgx_success) _ _
          (λ e _.
            let (_, _, opened) = init_opens key w ((==_iff _ _).0 e) in
            record { on = refl; at = rw opened (with_context_self (view w) _ _) })
          (λ _ bad. absurd cc) good

    Holds-update :
        (key text src : List ℕ) (h : Handle) (w : W)
        → Holds key text h w
        → length src ≤ bound
        → (update_slice rsgx src h w).result ≡ ok tt
        → Holds key (text ++ src) (update_slice rsgx src h w).this (update_slice rsgx src h w).world
    unfolding update_slice
    Holds-update key text src h w holds short good =
        either
          (λ (o : Outcome W (Unit {0})). o.result ≡ ok tt → Holds key (text ++ src) o.this o.world)
          h.initflag _ _
          (λ on called.
            let success = from_status-success _ tt tt called in
            let added = slice.appends src h.handle w _ holds.at short success.0 in
            record { on = on; at = rw added (with_context_self (view w) h.handle _) })
          (λ _ bad. absurd cc) good

    Holds-get_hash :
        (key text hash : List ℕ) (h : Handle) (w : W)
        → Holds key text h w
        → (get_hash rsgx h w).result ≡ ok hash
        → hash ≡ tag key text
    unfolding get_hash
    Holds-get_hash key text hash h w holds good =
        either (λ (o : Outcome W (List ℕ)). o.result ≡ ok hash → hash ≡ tag key text) h.initflag _ _
          (λ on called.
            let (success, same) = from_status-success _ _ hash called in
            sym same ∙ final_tag h.handle w _ holds.at success)
          (λ _ bad. absurd cc) good

    Holds-feed :
        (key text : List ℕ) (pieces : List (List ℕ)) (h : Handle) (w : W)
        → Holds key text h w
        → AllShort bound pieces
        → (feed pieces h w).result ≡ ok tt
        → Holds key (text ++ concat pieces) (feed pieces h w).this (feed pieces h w).world
    unfolding feed
    Holds-feed key text [] h w holds _ good = rw (append-nil text) holds
    Holds-feed key text (piece ∷ pieces) h w holds (short, rest) good =
        on_result
          (λ (o : Outcome W (Unit {0})).
            o.result ≡ ok tt → Holds key (text ++ concat (piece ∷ pieces)) o.this o.world)
          (update_slice rsgx piece h w).result _ _
          (λ _ e all.
            let held = Holds-update key text piece h w holds short e in
            let o = update_slice rsgx piece h w in
            let fed = feed pieces o.this o.world in
            subst (λ (t : List ℕ). Holds key t fed.this fed.world)
              (append_assoc text piece (concat pieces))
              (Holds-feed key (text ++ piece) pieces _ _ held rest all))
          (λ e _ bad. absurd cc) good

    -- A key and pieces that go through the handle one by one, each of at most `bound` bytes, give the
    -- hash or MAC of all the pieces together, wherever every call succeeds.
    pub hash_pieces_lem :
        (key : List ℕ) (pieces : List (List ℕ)) (w : W) (hash : List ℕ)
        → AllShort bound pieces
        → hash_pieces key pieces w ≡ ok hash
        → hash ≡ tag (key_of key) (concat pieces)
    unfolding hash_pieces
    hash_pieces_lem key pieces w hash short good =
        on_result (λ (r : Result (List ℕ)). r ≡ ok hash → hash ≡ tag (key_of key) (concat pieces))
          (init rsgx key new w).result _ _
          (λ _ e.
            let held = Holds-init key w e in
            on_result
              (λ (r : Result (List ℕ)). r ≡ ok hash → hash ≡ tag (key_of key) (concat pieces))
              (feed pieces (init rsgx key new w).this (init rsgx key new w).world).result _ _
              (λ _ e' got.
                Holds-get_hash (key_of key) (concat pieces) hash _ _
                  (Holds-feed (key_of key) [] pieces _ _ held short e') got)
              (λ _ _ bad. absurd cc))
          (λ _ _ bad. absurd cc) good

    -- The library never refuses a live context, nor to open one.
    pub record Succeeds : Type 0 where
      pub opens : (key : List ℕ) (w : W) → (rsgx.init key w).0 ≡ sgx_success
      pub absorbs :
          (src : List ℕ) (h : ℕ) (w : W) (c : Absorbed)
          → view w h ≡ some c
          → 0 < length src
          → length src ≤ bound
          → (rsgx.update_slice src h w).0 ≡ sgx_success
      pub finishes :
          (h : ℕ) (w : W) (c : Absorbed) → view w h ≡ some c → (rsgx.get_hash h w).0 ≡ sgx_success

    module _ (never : Succeeds) where
      feed-ok :
          (key text : List ℕ) (pieces : List (List ℕ)) (h : Handle) (w : W)
          → Holds key text h w
          → AllShort bound pieces
          → AllFilled pieces
          → (feed pieces h w).result ≡ ok tt
      unfolding feed update_slice
      feed-ok key text [] h w holds short filled = refl
      feed-ok key text (piece ∷ pieces) h w holds (short, rest) (filled, more) =
          let accepted : (update_slice rsgx piece h w).result ≡ ok tt =
            rw (holds.on, never.absorbs piece h.handle w _ holds.at filled short) refl in
          on_result (λ (o : Outcome W (Unit {0})). o.result ≡ ok tt)
            (update_slice rsgx piece h w).result _ _
            (λ _ _.
              feed-ok key (text ++ piece) pieces _ _
                (Holds-update key text piece h w holds short accepted) rest more)
            (λ e bad. absurd (ok-ne-err accepted bad))

      init-ok : (key : List ℕ) (w : W) → (init rsgx key new w).result ≡ ok tt
      unfolding init
      init-ok key w = rw (never.opens key w) refl

      get_hash-ok :
          (key text : List ℕ) (h : Handle) (w : W)
          → Holds key text h w
          → (get_hash rsgx h w).result ≡ ok (tag key text)
      unfolding get_hash
      get_hash-ok key text h w holds =
          let fine = never.finishes h.handle w _ holds.at in
          rw (holds.on, fine) (ap ok (final_tag h.handle w _ holds.at fine))

      -- Where the library never refuses, a key and pieces of 1 to `bound` bytes each give exactly the
      -- hash or MAC of all the pieces together.
      pub hash_pieces-tag :
          (key : List ℕ) (pieces : List (List ℕ)) (w : W)
          → AllShort bound pieces
          → AllFilled pieces
          → hash_pieces key pieces w ≡ ok (tag (key_of key) (concat pieces))
      unfolding hash_pieces
      hash_pieces-tag key pieces w short filled =
          let o = init rsgx key new w in
          let fed = feed pieces o.this o.world in
          let held = Holds-init key w (init-ok key w) in
          let fine = feed-ok (key_of key) [] pieces o.this o.world held short filled in
          on_result (λ (r : Result (List ℕ)). r ≡ ok (tag (key_of key) (concat pieces))) o.result _
            _
            (λ _ _.
              on_result (λ (r : Result (List ℕ)). r ≡ ok (tag (key_of key) (concat pieces)))
                fed.result _ _
                (λ _ _.
                  get_hash-ok (key_of key) (concat pieces) fed.this fed.world
                    (Holds-feed (key_of key) [] pieces o.this o.world held short fine))
                (λ _ bad. absurd (ok-ne-err fine bad)))
            (λ _ bad. absurd (ok-ne-err (init-ok key w) bad))
