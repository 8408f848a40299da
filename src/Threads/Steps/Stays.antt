-- ===== src/Threads/Steps/Stays.antt =====
-- What stays once thread safety is on (include/reaction/concurrency/thread_manager.h).
use reaction.Prelude.{
  ℕ, ◌≡◌, refl, sym, ◌∙◌, inl, inr, Bool, true, false, Option, none, some, List, [], ◌∷◌, ◌++◌,
  if◌then◌else◌, nat_beq, nat_beq_iff, nat_eq, arith, Bool-cases, if_true, if_false,
}
use mathlib.Core.Path.{subst}
use mathlib.Core.Bool.{true≢false}
use reaction.Graph.State.{update, update_here, update_away}
use reaction.Threads.Steps.{
  Shared, Place, idle, checking, claiming, asking, enabling, bumping, loading, Worker, Call,
  register_call, enable_call, ask_call, begin, finish, reply, access, System, Action, calls, moves,
  is_idle, perform, schedule,
}
use reaction.Threads.Steps.Relies.{bumps}

-- Safety is on, and no thread has turned it on without having changed the version yet.
pub record IsOn (s : System) : Type 0 where
  pub enabled : s.shared.enabled ≡ true
  pub quiet : (i : ℕ) → bumps (s.worker i).place ≡ false

-- An access of a thread that is not about to change the version.
record Stays (m : Shared) (w : Worker) (r : Shared × Worker) : Type 0 where
  enabled : r.0.enabled ≡ true
  quiet : bumps r.1.place ≡ false
  registered : w.registered ≡ true → r.1.registered ≡ true

module _ (t : ℕ) (m : Shared) (w : Worker) (e : m.enabled ≡ true) where
  Stays-if :
      (b : Bool) (x y : Worker)
      → Stays m w (m, x)
      → Stays m w (m, y)
      → Stays m w (if b then (m, x) else (m, y))
  Stays-if true x y p q = p
  Stays-if false x y p q = q

  finish-Stays : (b : Bool) → Stays m w (m, finish b w)
  unfolding finish bumps
  finish-Stays b = record { enabled = e; quiet = refl; registered = λ h. ground (arith, h) }

  claimed-Stays :
      (o : Option ℕ)
      → Stays m w (elim o [
        | none ↦ (record m { first_thread_id = some t }, finish true w)
        | some u ↦
            if nat_beq u t then (m, finish true w) else (m, record w { place = enabling true })
      ])
  unfolding finish bumps
  claimed-Stays none = record { enabled = e; quiet = refl; registered = λ h. refl }
  claimed-Stays (some u) =
      Stays-if (nat_beq u t) (finish true w) (record w { place = enabling true })
        (finish-Stays true) (record { enabled = e; quiet = refl; registered = λ k. k })

  access-Stays : (p : Place) → bumps p ≡ false → bumps w.place ≡ false → Stays m w (access t p m w)
  unfolding access bumps reply
  access-Stays idle q h = record { enabled = e; quiet = h; registered = λ k. k }
  access-Stays checking q h =
      Stays-if m.enabled (finish true w) (record w { place = claiming }) (finish-Stays true)
        (record { enabled = e; quiet = refl; registered = λ k. k })
  access-Stays claiming q h = claimed-Stays m.first_thread_id
  access-Stays asking q h =
      Stays-if (nat_beq w.cached_version m.safety_version) (reply w.cached_enabled w)
        (record w { place = loading m.safety_version })
        (record { enabled = e; quiet = refl; registered = λ k. k })
        (record { enabled = e; quiet = refl; registered = λ k. k })
  access-Stays (enabling b) q h = subst (Stays m w) (sym (if_true e _ _)) (finish-Stays b)
  access-Stays (bumping b) q h = absurd (true≢false q)
  access-Stays (loading v) q h = record { enabled = e; quiet = refl; registered = λ k. k }

begin-quiet : (c : Call) (w : Worker) → bumps w.place ≡ false → bumps (begin c w).place ≡ false
unfolding begin bumps
begin-quiet register_call w h = elim (Bool-cases w.registered) [
  | inl there ↦ subst (λ (v : Worker). bumps v.place ≡ false) (sym (if_true there _ _)) h
  | inr not_yet ↦ subst (λ (v : Worker). bumps v.place ≡ false) (sym (if_false not_yet _ _)) refl
]
begin-quiet enable_call w h = refl
begin-quiet ask_call w h = refl

begin-registered : (c : Call) (w : Worker) → w.registered ≡ true → (begin c w).registered ≡ true
unfolding begin
begin-registered register_call w h =
    subst (λ (v : Worker). v.registered ≡ true) (sym (if_true h _ _)) h
begin-registered enable_call w h = h
begin-registered ask_call w h = h

-- A write to one worker.
all_updated :
    (P : Worker → Type 0) (f : ℕ → Worker) (t : ℕ) (w : Worker) (i : ℕ)
    → (t ≡ i → P w)
    → P (f i)
    → P (update f t w i)
all_updated P f t w i here there = elim (Bool-cases (nat_beq t i)) [
  | inl same ↦
      subst (λ j. P (update f t w j)) ((nat_beq_iff t i).0 same)
        (subst P (sym (update_here f t w)) (here ((nat_beq_iff t i).0 same)))
  | inr other ↦
      subst P
        (sym (update_away f t i w (λ q. true≢false (sym ((nat_beq_iff t i).1 (sym q)) ∙ other))))
        there
]

abbrev IsQuiet : Worker → Type 0
IsQuiet w = bumps w.place ≡ false

abbrev IsRegistered : Worker → Type 0
IsRegistered w = w.registered ≡ true

begun : (P : Worker → Type 0) (b : Bool) (v w : Worker) → P v → P w → P (if b then v else w)
begun P true v w p q = p
begun P false v w p q = q

perform-IsOn : (a : Action) (s : System) → IsOn s → IsOn (perform a s)
unfolding perform
perform-IsOn (calls t c) s k = record {
  enabled = k.enabled;
  quiet = λ i.
      all_updated IsQuiet s.worker t _ i
        (λ _.
          begun IsQuiet (is_idle (s.worker t).place) _ _ (begin-quiet c (s.worker t) (k.quiet t))
            (k.quiet t))
        (k.quiet i);
}
perform-IsOn (moves t) s k =
    let r =
      access-Stays t s.shared (s.worker t) k.enabled (s.worker t).place (k.quiet t) (k.quiet t) in
    record {
      enabled = r.enabled;
      quiet = λ i. all_updated IsQuiet s.worker t _ i (λ _. r.quiet) (k.quiet i);
    }

perform-IsRegistered :
    (a : Action) (s : System) (i : ℕ)
    → IsOn s
    → IsRegistered (s.worker i)
    → IsRegistered ((perform a s).worker i)
unfolding perform
perform-IsRegistered (calls t c) s i k h =
    all_updated IsRegistered s.worker t _ i
      (λ e.
        let h' = subst (λ j. IsRegistered (s.worker j)) (sym e) h in
        begun IsRegistered (is_idle (s.worker t).place) _ _ (begin-registered c (s.worker t) h') h')
      h
perform-IsRegistered (moves t) s i k h =
    all_updated IsRegistered s.worker t _ i
      (λ e.
        let r =
          access-Stays t s.shared (s.worker t) k.enabled (s.worker t).place (k.quiet t)
            (k.quiet t) in
        r.registered (subst (λ j. IsRegistered (s.worker j)) (sym e) h))
      h

pub schedule-IsOn : (l : List Action) (s : System) → IsOn s → IsOn (schedule l s)
unfolding schedule
schedule-IsOn [] s k = k
schedule-IsOn (a ∷ l) s k = schedule-IsOn l (perform a s) (perform-IsOn a s k)

pub schedule-IsRegistered :
    (l : List Action) (s : System) (i : ℕ)
    → IsOn s
    → IsRegistered (s.worker i)
    → IsRegistered ((schedule l s).worker i)
unfolding schedule
schedule-IsRegistered [] s i k h = h
schedule-IsRegistered (a ∷ l) s i k h =
    schedule-IsRegistered l (perform a s) i (perform-IsOn a s k) (perform-IsRegistered a s i k h)

pub schedule-append :
    (l l' : List Action) (s : System) → schedule (l ++ l') s ≡ schedule l' (schedule l s)
unfolding schedule
schedule-append [] l' s = refl
schedule-append (a ∷ l) l' s = schedule-append l l' (perform a s)
