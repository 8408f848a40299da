-- ===== src/Threads/Steps/Relies.antt =====
-- What a thread relies on between its accesses (include/reaction/concurrency/thread_manager.h).
use reaction.Prelude.{
  ℕ, ◌≡◌, ◌≢◌, ◌⊎◌, inl, inr, refl, sym, ap, ◌∙◌, Bool, true, false, Option, none, some,
  if◌then◌else◌, nat_beq, nat_beq_iff, arith, Bool-cases, if_true, if_false,
}
use mathlib.Core.Path.{subst}
use reaction.Threads.{next_version}
use reaction.Threads.Steps.{
  Shared, Place, idle, checking, claiming, asking, enabling, bumping, loading, Worker, finish,
  reply, access,
}

unfoldable pub bumps : Place → Bool
bumps idle = false
bumps checking = false
bumps claiming = false
bumps asking = false
bumps (enabling r) = false
bumps (bumping r) = true
bumps (loading v) = false

-- What a thread may rely on.
pub record Relies (mode : Bool) (m : Shared) (t : ℕ) (w : Worker) : Type 0 where
  pub known : w.registered ≡ true → (m.enabled ≡ true) ⊎ (m.first_thread_id ≡ some t)
  pub second : w.cached_version ≡ 2 → w.cached_enabled ≡ true
  pub first : mode ≡ true → w.cached_version ≡ 1 → w.cached_enabled ≡ true
  pub loads : (v : ℕ) → w.place ≡ loading v → v ≡ 2 → m.enabled ≡ true
  pub bumped : bumps w.place ≡ true → m.enabled ≡ true

-- The members only change one way.
pub record Advances (m m' : Shared) : Type 0 where
  pub stays : m.enabled ≡ true → m'.enabled ≡ true
  pub keeps : (t : ℕ) → m.first_thread_id ≡ some t → m'.first_thread_id ≡ some t

pub Relies-later :
    (mode : Bool) (m m' : Shared) (t : ℕ) (w : Worker)
    → Advances m m'
    → Relies mode m t w
    → Relies mode m' t w
Relies-later mode m m' t w a r = record {
  known = λ h. elim (r.known h) [ inl e ↦ inl (a.stays e) | inr f ↦ inr (a.keeps t f) ];
  second = r.second;
  first = r.first;
  loads = λ v p e. a.stays (r.loads v p e);
  bumped = λ h. a.stays (r.bumped h);
}

pub access-Advances : (t : ℕ) (p : Place) (m : Shared) (w : Worker) → Advances m (access t p m w).0
unfolding access
access-Advances t idle m w = record { stays = λ e. e; keeps = λ u e. e }
access-Advances t checking m w = record {
  stays = λ e. ground (arith, e);
  keeps = λ u e. ground (arith, e);
}
access-Advances t claiming m w = record {
  stays = λ e. ground (arith, e);
  keeps = λ u e. ground (arith, e);
}
access-Advances t (enabling r) m w = record {
  stays = λ e. ground (arith, e);
  keeps = λ u e. ground (arith, e);
}
access-Advances t (bumping r) m w = record { stays = λ e. e; keeps = λ u e. e }
access-Advances t asking m w = record {
  stays = λ e. ground (arith, e);
  keeps = λ u e. ground (arith, e);
}
access-Advances t (loading v) m w = record { stays = λ e. e; keeps = λ u e. e }

module _ (mode : Bool) (m : Shared) (t : ℕ) (w : Worker) (r : Relies mode m t w) where
  finish-Relies :
      (b : Bool)
      → (b ≡ true → (m.enabled ≡ true) ⊎ (m.first_thread_id ≡ some t))
      → Relies mode m t (finish b w)
  unfolding finish bumps
  finish-Relies b why = record {
    known = λ h. elim (Bool-cases b) [
      | inl yes_b ↦ why yes_b
      | inr no_b ↦ r.known (ground (arith, h, no_b))
    ];
    second = r.second;
    first = r.first;
    loads = λ v e. cc;
    bumped = λ h. cc;
  }

  -- At a place where nothing is held in a local variable.
  pub goes-Relies :
      (p : Place)
      → ((v : ℕ) → p ≡ loading v → v ≡ 2 → m.enabled ≡ true)
      → (bumps p ≡ true → m.enabled ≡ true)
      → Relies mode m t (record w { place = p })
  goes-Relies p loads bumped = record {
    known = r.known;
    second = r.second;
    first = r.first;
    loads = loads;
    bumped = bumped;
  }

  reply-Relies : (b : Bool) → Relies mode m t (reply b w)
  unfolding reply bumps
  reply-Relies b = record {
    known = r.known;
    second = r.second;
    first = r.first;
    loads = λ v e. cc;
    bumped = λ h. cc;
  }

-- What the next access leaves to rely on.
abbrev Left : Bool → ℕ → Shared × Worker → Type 0
Left mode t x = Relies mode x.0 t x.1

module _ (mode : Bool) (t : ℕ) (m : Shared) (w : Worker)
    (two : m.safety_version ≡ 2 → m.enabled ≡ true) (forced : mode ≡ true → m.enabled ≡ true)
    (r : Relies mode m t w) where
  claims : (o : Option ℕ) → m.first_thread_id ≡ o → Left mode t (access t claiming m w)
  unfolding access bumps
  claims none e = subst (Left mode t) (sym taken) (
      finish-Relies mode (record m { first_thread_id = some t }) t w
        (Relies-later mode m (record m { first_thread_id = some t }) t w
          (record { stays = λ h. h; keeps = λ u h. absurd (empty (sym e ∙ h)) }) r)
        true (λ h. inr refl))
    where
      empty : {u : ℕ} → none ≢ some u
      empty z = cc

      taken : access t claiming m w ≡ (record m { first_thread_id = some t }, finish true w)
      taken = rw (access, e)
  claims (some u) e = elim (Bool-cases (nat_beq u t)) [
    | inl same ↦ subst (Left mode t) (sym (mine same)) (
        finish-Relies mode m t w r true
          (λ h. inr (e ∙ ap (λ (n : ℕ). some n) ((nat_beq_iff u t).0 same))))
    | inr other ↦
        subst (Left mode t) (sym (another other))
          (goes-Relies mode m t w r (enabling true) (λ v z. cc) (λ h. cc))
  ]
    where
      either : Option ℕ → Shared × Worker
      either none = (record m { first_thread_id = some t }, finish true w)
      either (some n) =
          if nat_beq n t then (m, finish true w) else (m, record w { place = enabling true })

      mine : nat_beq u t ≡ true → access t claiming m w ≡ (m, finish true w)
      mine same = ap either e ∙ if_true same _ _

      another :
          nat_beq u t ≡ false → access t claiming m w ≡ (m, record w { place = enabling true })
      another other = ap either e ∙ if_false other _ _

  pub access-Relies : (p : Place) → w.place ≡ p → Left mode t (access t p m w)
  unfolding access bumps
  access-Relies idle e = r
  access-Relies checking e = elim (Bool-cases m.enabled) [
    | inl yes_e ↦
        subst (Left mode t) (sym (if_true yes_e _ _))
          (finish-Relies mode m t w r true (λ h. inl yes_e))
    | inr no_e ↦
        subst (Left mode t) (sym (if_false no_e _ _))
          (goes-Relies mode m t w r claiming (λ v z. cc) (λ h. cc))
  ]
  access-Relies claiming e = claims m.first_thread_id refl
  access-Relies (enabling b) e = elim (Bool-cases m.enabled) [
    | inl yes_e ↦
        subst (Left mode t) (sym (if_true yes_e _ _))
          (finish-Relies mode m t w r b (λ h. inl yes_e))
    | inr no_e ↦ subst (Left mode t) (sym (if_false no_e _ _)) (
        goes-Relies mode (record m { enabled = true }) t w
          (Relies-later mode m (record m { enabled = true }) t w
            (record { stays = λ h. refl; keeps = λ u h. h }) r)
          (bumping b) (λ v z. cc) (λ h. refl))
  ]
  access-Relies (bumping b) e =
      finish-Relies mode (record m { safety_version = next_version m.safety_version }) t w
        (Relies-later mode m (record m { safety_version = next_version m.safety_version }) t w
          (record { stays = λ h. h; keeps = λ u h. h }) r)
        b (λ h. inl (r.bumped (ap bumps e)))
  access-Relies asking e = elim (Bool-cases (nat_beq w.cached_version m.safety_version)) [
    | inl same ↦
        subst (Left mode t) (sym (if_true same _ _)) (reply-Relies mode m t w r w.cached_enabled)
    | inr other ↦ subst (Left mode t) (sym (if_false other _ _)) (
        goes-Relies mode m t w r (loading m.safety_version) (λ v z e2. two (loaded z ∙ e2))
          (λ h. cc))
  ]
    where
      loaded : {a b : ℕ} → loading a ≡ loading b → a ≡ b
      loaded z = cc
  access-Relies (loading v) e =
      reply-Relies mode m t (record w { cached_enabled = m.enabled; cached_version = v })
        (record {
          known = r.known;
          second = λ e2. r.loads v e e2;
          first = λ h e1. forced h;
          loads = r.loads;
          bumped = r.bumped;
        })
        m.enabled
