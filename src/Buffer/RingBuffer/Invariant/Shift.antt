-- ===== src/Buffer/RingBuffer/Invariant/Shift.antt =====
-- A thread takes one sequence number to its next stage: what the other threads hold and know stays.
use do_logger.Prelude.{ℕ, ◌≡◌, ◌≢◌, some, arith, sym, subst, ◌∙◌}
use native.Mathlib.Decide.{ℕ_discrete}
use do_logger.Buffer.RingBuffer.{
  Pc, drain_check, drain_claim, drain_producer, drain_release, drain_start, drain_take, drain_wait,
  idle, len_producer, len_start, push_claim, push_producer, push_publish, push_start, push_wait,
  push_write, update,
}
use do_logger.Buffer.RingBuffer.Invariant.{Stage, hold, owner}

pub update_self : {A : Type 0} (f : ℕ → A) (i : ℕ) (a : A) → update f i a i ≡ a
update_self f i a = ground arith

pub update_ne : {A : Type 0} (f : ℕ → A) (i j : ℕ) (a : A) → i ≢ j → update f i a j ≡ f j
update_ne f i j a h = ground arith

-- A family over the indices, kept by an update.
pub update_both :
    {B : Type 0} (P : ℕ → B → Type 0) (f : ℕ → B) (i : ℕ) (a : B)
    → P i a
    → ((j : ℕ) → i ≢ j → P j (f j))
    → (j : ℕ) → P j (update f i a j)
update_both P f i a here away j = elim (ℕ_discrete i j) [
  | yes e ↦ subst (λ v. P v (update f i a v)) e (rw (update_self f i a) here)
  | no ne ↦ rw (update_ne f i j a ne) (away j ne)
]

module _ {A : Type 0} where
  -- The stage that a thread holds names the thread.
  hold-owner : (t q : ℕ) (s : Stage) (pc : Pc A) → hold t pc ≡ some (q, s) → owner s ≡ some t
  hold-owner t q s (push_wait x p) e = cc
  hold-owner t q s (push_write x p) e = cc
  hold-owner t q s (push_publish p) e = cc
  hold-owner t q s (drain_take b left c) e = cc
  hold-owner t q s (drain_release b left c) e = cc
  hold-owner t q s idle e = cc
  hold-owner t q s (push_start x) e = cc
  hold-owner t q s (push_producer x c) e = cc
  hold-owner t q s (push_claim x c) e = cc
  hold-owner t q s (drain_start b left) e = cc
  hold-owner t q s (drain_producer b left c) e = cc
  hold-owner t q s (drain_wait b left c) e = cc
  hold-owner t q s (drain_check left c) e = cc
  hold-owner t q s (drain_claim b left c) e = cc
  hold-owner t q s len_start e = cc
  hold-owner t q s (len_producer c) e = cc

  abbrev pub Holds : (ℕ → Pc A) → (ℕ → Stage) → Type 0
  Holds pcs stage = (t q : ℕ) (s : Stage) → hold t (pcs t) ≡ some (q, s) → stage q ≡ s

  abbrev pub Held : (ℕ → Pc A) → (ℕ → Stage) → Type 0
  Held pcs stage = (t q : ℕ) → owner (stage q) ≡ some t → hold t (pcs t) ≡ some (q, stage q)

  -- Thread `t` goes on from `q` alone, to `pc'`, which leaves `q` at the stage `s'`.
  pub record Handover (stage : ℕ → Stage) (t q : ℕ) (s' : Stage) (pc pc' : Pc A) : Type 0 where
    pub mine : (u : ℕ) → owner (stage q) ≡ some u → u ≡ t
    pub before : (p : ℕ) (s : Stage) → hold t pc ≡ some (p, s) → p ≡ q
    pub after : (p : ℕ) (s : Stage) → hold t pc' ≡ some (p, s) → (q ≡ p) × (s' ≡ s)
    pub kept : (u : ℕ) → owner s' ≡ some u → (u ≡ t) × (hold t pc' ≡ some (q, s'))

  module _ (pcs : ℕ → Pc A) (stage : ℕ → Stage) (holds : Holds pcs stage)
      (held : Held pcs stage) where
    module _ (t q : ℕ) (s' : Stage) (pc' : Pc A) (h : Handover stage t q s' (pcs t) pc') where
      open h use {mine, before, after, kept}

      here_Holds :
          (p : ℕ) (s : Stage) → hold t (update pcs t pc' t) ≡ some (p, s) → update stage q s' p ≡ s
      here_Holds p s e =
          let (c, d) = after p s (subst (λ x. hold t x ≡ some (p, s)) (update_self pcs t pc') e) in
          subst (λ v. update stage q s' v ≡ s) c (update_self stage q s' ∙ d)

      away_Holds :
          (u p : ℕ) (s : Stage) → t ≢ u → hold u (pcs u) ≡ some (p, s) → update stage q s' p ≡ s
      away_Holds u p s b e = elim (ℕ_discrete q p) [
        | yes c ↦
            let own : owner (stage p) ≡ some u = rw (holds u p s e) (hold-owner u p s (pcs u) e) in
            absurd (b (sym (mine u (rw c own))))
        | no c ↦ update_ne stage q p s' c ∙ holds u p s e
      ]

      pub Handover-Holds : Holds (update pcs t pc') (update stage q s')
      Handover-Holds u p s e = elim (ℕ_discrete t u) [
        | yes a ↦ here_Holds p s (subst (λ v. hold v (update pcs t pc' v) ≡ some (p, s)) (sym a) e)
        | no b ↦
            away_Holds u p s b (subst (λ x. hold u x ≡ some (p, s)) (update_ne pcs t u pc' b) e)
      ]

      here_Held :
          (u : ℕ) → owner s' ≡ some u → hold u (update pcs t pc' u) ≡ some (q, update stage q s' q)
      here_Held u e =
          let (a, f) = kept u e in
          subst (λ v. hold v (update pcs t pc' v) ≡ some (q, update stage q s' q)) (sym a)
            (rw (update_self pcs t pc', update_self stage q s') f)

      away_Held :
          (u p : ℕ)
          → q ≢ p
          → owner (stage p) ≡ some u
          → hold u (update pcs t pc' u) ≡ some (p, stage p)
      away_Held u p c e = elim (ℕ_discrete t u) [
        | yes a ↦ absurd (
            c (
              sym (
                before p (stage p)
                  (subst (λ v. hold v (pcs v) ≡ some (p, stage p)) (sym a) (held u p e)))))
        | no b ↦ rw (update_ne pcs t u pc' b) (held u p e)
      ]

      pub Handover-Held : Held (update pcs t pc') (update stage q s')
      Handover-Held u p e = elim (ℕ_discrete q p) [
        | yes c ↦
            subst (λ v. hold u (update pcs t pc' u) ≡ some (v, update stage q s' v)) c
              (here_Held u (
                subst (λ x. owner x ≡ some u) (update_self stage q s')
                  (subst (λ v. owner (update stage q s' v) ≡ some u) (sym c) e)))
        | no c ↦
            rw (update_ne stage q p s' c)
              (away_Held u p c (subst (λ x. owner x ≡ some u) (update_ne stage q p s' c) e))
      ]
