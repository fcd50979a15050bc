-- ===== src/Service/Cancellation.antt =====
-- The invariant of the table of cancellable requests: src/service/pending.rs.
pub mod Preserved
pub mod Requests
pub mod Stale
use tower_lsp.Base.{
  ◌≡◌, refl, sym, ◌∙◌, ap, ◌≢◌, ◌⊎◌, subst, inl, inr, Bool, true, false, Option, none, some, arith,
  [], ◌∷◌, Option-cases, Bool-cases, eq_iff, ◌==◌,
}
use tower_lsp.Base.Map.{Map, get, insert, remove, get-insert, get-remove}
use tower_lsp.JsonRpc.RequestId.{RequestId, Id_eq}
use tower_lsp.Service.Abort.{AbortApi}
use tower_lsp.Service.World.{World}
use tower_lsp.Service.Task.{Task}
use tower_lsp.Service.Pending.{execute, cancel, release, cancel_all, abort_all}

insert-get :
    {H : Type 0} (id j : RequestId) (h k : H) (m : Map RequestId H)
    → get j (insert id h m) ≡ some k
    → ((id ≡ j) × (h ≡ k)) ⊎ (get j m ≡ some k)
insert-get id j h k m e = ground (arith, get-insert id j h m, eq_iff id j)

module _ {api : AbortApi} where
  -- Each entry has a handle of its own, which was made and whose flag is down.
  pub record IsWellFormed (w : World api) : Type 0 where
    pub issued :
        (id : RequestId) (h : api.Handle) → get id w.pending ≡ some h → api.Issued w.flags h
    pub down :
        (id : RequestId) (h : api.Handle)
        → get id w.pending ≡ some h
        → api.is_aborted w.flags h ≡ false
    pub own :
        (i j : RequestId) (h : api.Handle)
        → get i w.pending ≡ some h
        → get j w.pending ≡ some h
        → i ≡ j

  release-get :
      (id j : RequestId) (h : api.Handle) (w : World api)
      → get j (release id w).pending ≡ some h
      → (id ≢ j) × (get j w.pending ≡ some h)
  unfolding release
  release-get id j h w e = ground (arith, get-remove id j w.pending, eq_iff id j)

  pub release-IsWellFormed :
      (id : RequestId) (w : World api) → IsWellFormed w → IsWellFormed (release id w)
  unfolding release
  release-IsWellFormed id w v = record {
    issued = λ j h e. v.issued j h (release-get id j h w e).1;
    down = λ j h e. v.down j h (release-get id j h w e).1;
    own = λ i j h e f. v.own i j h (release-get id i h w e).1 (release-get id j h w f).1;
  }

  pub cancel-IsWellFormed :
      (id : RequestId) (w : World api) → IsWellFormed w → IsWellFormed (cancel id w)
  unfolding cancel
  cancel-IsWellFormed id w v = elim (Option-cases (get id w.pending)) [
    | inl free ↦ rw (free, cancel) v
    | inr (h, e) ↦
        rw (e, cancel)
          (record {
            issued = λ j k f. api.issued_abort _ _ _ (v.issued j k (release-get id j k w f).1);
            down = λ j k f.
                let (other, old) = release-get id j k w f in
                api.abort_other w.flags k h (λ same. other (v.own id j k (e ∙ ap some same) old))
                ∙ v.down j k old;
            own = λ i j k f g. v.own i j k (release-get id i k w f).1 (release-get id j k w g).1;
          })
  ]

  module _ (id : RequestId) (w : World api) (v : IsWellFormed w) where
    abbrev new_handle : api.Handle
    new_handle = (api.abortable w.flags).0

    abbrev new_flags : api.Flags
    new_flags = (api.abortable w.flags).1

    entered-IsWellFormed :
        IsWellFormed (record w { pending = insert id new_handle w.pending; flags = new_flags })
    entered-IsWellFormed = record {
      issued = λ j k e. elim (insert-get id j new_handle k w.pending e) [
        | inl (_, new) ↦ subst (api.Issued new_flags) new (api.issued_new w.flags)
        | inr old ↦ api.issued_kept w.flags k (v.issued j k old)
      ];
      down = λ j k e. elim (insert-get id j new_handle k w.pending e) [
        | inl (_, new) ↦
            subst (λ x. api.is_aborted new_flags x ≡ false) new (api.abortable_down w.flags)
        | inr old ↦ api.abortable_other w.flags k (v.issued j k old) ∙ v.down j k old
      ];
      own = λ i j k e f. elim (insert-get id i new_handle k w.pending e) [
        | inl (at_i, new) ↦ elim (insert-get id j new_handle k w.pending f) [
          | inl (at_j, _) ↦ sym at_i ∙ at_j
          | inr old ↦ absurd (api.abortable_fresh w.flags k (v.issued j k old) new)
        ]
        | inr old_i ↦ elim (insert-get id j new_handle k w.pending f) [
          | inl (_, new) ↦ absurd (api.abortable_fresh w.flags k (v.issued i k old_i) new)
          | inr old_j ↦ v.own i j k old_i old_j
        ]
      ];
    }

  module _ {Value B R : Type 0} where
    pub execute-IsWellFormed :
        (id : RequestId) (t : Task Value api.Handle B R) (w : World api)
        → IsWellFormed w
        → IsWellFormed (execute id t w).0
    unfolding execute
    execute-IsWellFormed id t w v = elim (Option-cases (get id w.pending)) [
      | inl free ↦ rw (free, execute) (entered-IsWellFormed id w v)
      | inr (h, e) ↦ rw (e, execute) v
    ]

  pub cancel_all-IsWellFormed : (w : World api) → IsWellFormed (cancel_all w)
  unfolding cancel_all get
  cancel_all-IsWellFormed w = record {
    issued = λ i h e. absurd (cc);
    down = λ i h e. absurd (cc);
    own = λ i j h e f. absurd (cc);
  }

module _ (api : AbortApi) where
  -- Shutting down aborts every request that is registered.
  abort_all_kept :
      (h : api.Handle) (m : Map RequestId api.Handle) (fl : api.Flags)
      → api.is_aborted fl h ≡ true
      → api.is_aborted (abort_all api m fl) h ≡ true
  unfolding abort_all
  abort_all_kept h [] fl up = up
  abort_all_kept h ((i, k) ∷ m) fl up =
      abort_all_kept h m (api.abort k fl) (api.abort_kept fl h k up)

  pub abort_all-get :
      (id : RequestId) (h : api.Handle) (m : Map RequestId api.Handle) (fl : api.Flags)
      → get id m ≡ some h
      → api.is_aborted (abort_all api m fl) h ≡ true
  unfolding abort_all get
  abort_all-get id h [] fl e = cc
  abort_all-get id h ((i, k) ∷ m) fl e = elim (Bool-cases (i == id)) [
    | inl here ↦
        abort_all_kept h m (api.abort k fl) (
          subst (λ x. api.is_aborted (api.abort k fl) x ≡ true) (ground arith)
            (api.abort_self fl k))
    | inr later ↦ abort_all-get id h m (api.abort k fl) (ground arith)
  ]
