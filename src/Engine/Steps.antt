-- ===== src/Engine/Steps.antt =====
-- What a successful step of the Processor says of its parts, over any store that keeps its contract.
use vibe_alfa_gen.Prelude.{
  ◌+◌, ◌≤◌, ◌<◌, ◌≡◌, refl, sym, ap, ◌∙◌, Bool, true, false, String, Option, none, some,
  if◌then◌else◌, ◌==◌, string_eq, nat_eq, arith, inl, inr, Bool-cases,
}
use vibe_alfa_gen.Domain.{Scope, Error, Result, ok, err}
use vibe_alfa_gen.Text.{Text}
use vibe_alfa_gen.Registry.{Registry, unless_stopped}
use vibe_alfa_gen.Store.{Record, Time, passed}
use vibe_alfa_gen.Store.Interface.{StoreOps, IsStore}
use vibe_alfa_gen.Engine.{Machine, Call, unexpired, usable, mask}
use vibe_alfa_gen.Engine.Processor.{new_record, ◌>>>◌, stop_or, read, save, create, find_or_create}

-- The look at the context before and after a call of the store finds it alive.
pub record IsQuiet (c : Call) : Type 0 where
  pub before : c.before_read ≡ none
  pub after : c.after_read ≡ none

module _ {S A B : Type 0} where
  pub >>>-eq-ok :
      (m : Result A × S) (f : A → S → Result B × S) (b : B) (s' : S)
      → (m >>> f) ≡ (ok b, s')
      → (a : A) × (s1 : S) × (m ≡ (ok a, s1)) × (f a s1 ≡ (ok b, s'))
  >>>-eq-ok (ok a, s) f b s' h = (a, s, refl, h)
  >>>-eq-ok (err e, s) f b s' h = absurd (ok_not_err h)
    where
      ok_not_err : ◌≡◌ {A = Result B × S} (err e, s) (ok b, s') → ⊥
      ok_not_err p = cc (ap (λ q. q.0) p)

module _ {S A : Type 0} where
  stop_or-eq-ok :
      (stop : Option Error) (s : S) (rest : Result A × S) (a : A) (s' : S)
      → stop_or stop s rest ≡ (ok a, s')
      → rest ≡ (ok a, s')
  stop_or-eq-ok none s rest a s' h = h
  stop_or-eq-ok (some e) s rest a s' h = absurd (cc (ap (λ q. q.0) h))

pub unless_stopped-eq-ok :
    {A : Type 0} (stop : Option Error) (m : Result A) (a : A)
    → unless_stopped stop m ≡ ok a
    → m ≡ ok a
unless_stopped-eq-ok none m a h = h
unless_stopped-eq-ok (some e) m a h = cc h

pub ok-injective : {A : Type 0} {x y : A} → ok x ≡ ok y → x ≡ y
ok-injective p = cc p

usable-eq-ok :
    (now : Time) (rec : Record) (saved : Record × Bool)
    → usable now (rec, true) ≡ ok saved
    → saved.0 ≡ rec
usable-eq-ok now rec saved h = elim (Bool-cases (passed now rec.expires_at)) [
  | inl e ↦ cc (rw e at h)
  | inr e ↦ sym (ap (λ p. p.0) (ok-injective (rw e at h)))
]

module _ (m : Machine) (r : Registry) {S : Type 0} (ops : StoreOps S) (st : IsStore ops) where
  open st use {view, get-view, view-get, create-view, view-create_free}

  -- A read that succeeds answers from the view.
  pub read-eq-ok :
      (c : Call) (s : S) (id : String) (found : Option Record) (s1 : S)
      → read m r ops c s id ≡ (ok found, s1)
      → (found ≡ unexpired c.now (view s c.now id)) × (s1 ≡ (ops.get s c.now id).1)
  unfolding read
  read-eq-ok c s id found s1 h =
      let inner = stop_or-eq-ok c.before_read s _ found s1 h in
      let first = unless_stopped-eq-ok c.after_read _ found (ap (λ p. p.0) inner) in
      let answered : ok (unexpired c.now (view s c.now id)) ≡ ok found = rw get-view at first in
      (sym (ok-injective answered), sym (ap (λ p. p.1) inner))

  -- A read in a live context succeeds.
  pub read_quiet :
      (c : Call) (s : S) (id : String)
      → IsQuiet c
      → read m r ops c s id ≡ (ok (unexpired c.now (view s c.now id)), (ops.get s c.now id).1)
  unfolding read
  read_quiet c s id q = rw (q.before, q.after, get-view)

  pub save-eq-ok :
      (c : Call) (s : S) (id : String) (rec : Record) (saved : Record × Bool) (s1 : S)
      → view s c.now id ≡ none
      → save m r ops c s id rec ≡ (ok saved, s1)
      → (saved.0 ≡ rec) × (s1 ≡ (ops.create_if_absent s c.now id rec).1)
  unfolding save
  save-eq-ok c s id rec saved s1 free h =
      let inner = stop_or-eq-ok c.before_save s _ saved s1 h in
      let first = unless_stopped-eq-ok c.after_save _ saved (ap (λ p. p.0) inner) in
      let answered : usable c.now (rec, true) ≡ ok saved = rw (create-view, free) at first in
      (usable-eq-ok c.now rec saved answered, sym (ap (λ p. p.1) inner))

  -- The record of a new ID: it holds the text and its mask, and is seen under its ID until it expires.
  pub record IsCreated (c : Call) (s : S) (id : String) (scope : Scope) (text : Text) (rec : Record)
      (s' : S) : Type 0 where
    pub holds : rec.original ≡ text
    pub lasts : rec.expires_at ≡ c.now + scope.policy.ttl
    pub seen :
        (later : Time) (j : String)
        → c.now ≤ later
        → view s' later j ≡ (
            if id == j
            then (if passed later rec.expires_at then none else some rec)
            else view s later j)

  create-IsCreated :
      (c : Call) (s : S) (id : String) (scope : Scope) (text : Text) (force : Bool) (rec : Record)
      (s' : S)
      → 0 < scope.policy.ttl
      → view s c.now id ≡ none
      → create m r ops c s id scope text force ≡ (ok rec, s')
      → IsCreated c s id scope text rec s'
  unfolding create
  create-IsCreated c s id scope text force rec s' pos free h =
      let (made, s1, masked, rest) = >>>-eq-ok (mask m r c text scope.policy force, s) _ rec s' h in
      let same : s ≡ s1 = ap (λ p. p.1) masked in
      let free1 : view s1 c.now id ≡ none = rw (← same) free in
      let new = new_record c text scope.policy made in
      let (saved, s2, stored, last) = >>>-eq-ok (save m r ops c s1 id new) _ rec s' rest in
      let (is_new, after) = save-eq-ok c s1 id new saved s2 free1 stored in
      let is_rec : rec ≡ new = sym (ok-injective (ap (λ p. p.0) last)) ∙ is_new in
      let state : s' ≡ (ops.create_if_absent s1 c.now id new).1 =
        sym (ap (λ p. p.1) last) ∙ after in
      rw (is_rec, state)
        (unfold new_record in
          record {
            holds = refl;
            lasts = refl;
            seen = λ later j le.
                rw same (view-create_free s1 c.now later id j _ free1 le (omega arith));
          })

  pub find_or_create-IsCreated :
      (c : Call) (s : S) (id : String) (scope : Scope) (text : Text) (force : Bool) (rec : Record)
      (s' : S)
      → 0 < scope.policy.ttl
      → view s c.now id ≡ none
      → find_or_create m r ops c s id scope text force ≡ (ok rec, s')
      → IsCreated c s id scope text rec s'
  unfolding find_or_create
  find_or_create-IsCreated c s id scope text force rec s' pos free h =
      let (found, s1, answered, rest) = >>>-eq-ok (read m r ops c s id) _ rec s' h in
      let (is_view, state) = read-eq-ok c s id found s1 answered in
      let nothing : found ≡ none = is_view ∙ ap (unexpired c.now) free in
      let made : create m r ops c s1 id scope text force ≡ (ok rec, s') = rw nothing at rest in
      let free1 : view s1 c.now id ≡ none =
        rw state (view-get s c.now c.now id id (omega arith) ∙ free) in
      let done = create-IsCreated c s1 id scope text force rec s' pos free1 made in
      record {
        holds = done.holds;
        lasts = done.lasts;
        seen = λ later j le.
            done.seen later j le
            ∙ ap
                (λ v.
                  if id == j then (if passed later rec.expires_at then none else some rec) else v)
                (rw state (view-get s c.now later id j le));
      }

  -- The record of an ID that is there is found, whatever the text, and the view stays as it is.
  pub find_or_create_found :
      (c : Call) (s : S) (id : String) (scope : Scope) (text : Text) (force : Bool) (rec : Record)
      → IsQuiet c
      → view s c.now id ≡ some rec
      → passed c.now rec.expires_at ≡ false
      → find_or_create m r ops c s id scope text force ≡ (ok rec, (ops.get s c.now id).1)
  unfolding find_or_create
  find_or_create_found c s id scope text force rec q here live =
      rw (read_quiet c s id q, here, live)
