-- ===== src/Dashboard/WidgetData/Current.antt =====
-- No reply of a former run is shown.
use mathlib.Core.List.{Memᴰ}
use mathlib.Core.List.Memᴰ.{head, tail}
use bataudit.Prelude.{
  ℕ, suc, ◌≤◌, ◌==◌, String, Bool, true, false, ◌&&◌, ◌||◌, ◌≡◌, refl, sym, ap, ◌∙◌, some, List, [],
  ◌∷◌, ◌++◌, map, any, All, All-Mem, str_eq, eq_iff, arith, if◌then◌else◌, Bool-cases, inl, inr,
}
use bataudit.Prelude.Json.{Json}
use bataudit.Web.Http.{Error, Result}
use bataudit.Web.Clients.Template.{Codes, QueryVars}
use bataudit.Web.Clients.Studio.{Widget}
use bataudit.Dashboard.WidgetData.{
  WidgetState, loading, shown, Query, View, initial, Event, effect, settle, leave, query_of,
  start_widget, start, state_of, settled, step, steps,
}

-- No two widgets have the same id.
abbrev pub Distinct : List Widget → Type 0
Distinct [] = Unit
Distinct (w ∷ ws) = All (λ v. str_eq v.id w.id ≡ false) ws × Distinct ws

-- Whether the query of a run for an id is among those that were settled.
abbrev pub arrived : ℕ → String → List Query → Bool
arrived run id qs = any (λ q. q.run == run && str_eq q.id id) qs

holds_everywhere : {A : Type 0} (P : A → Type 0) (all : (x : A) → P x) (xs : List A) → All P xs
holds_everywhere P all [] = tt
holds_everywhere P all (x ∷ xs) = (all x, holds_everywhere P all xs)

All-map :
    {A : Type 0} (P R : A → Type 0) (f : (x : A) → P x → R x) (xs : List A) → All P xs → All R xs
All-map P R f [] h = tt
All-map P R f (x ∷ xs) (h, hs) = (f x h, All-map P R f xs hs)

All-snoc :
    {A : Type 0} (P : A → Type 0) (xs : List A) (x : A) → All P xs → P x → All P (xs ++ x ∷ [])
All-snoc P [] x h k = (k, tt)
All-snoc P (y ∷ ys) x (h, hs) k = (h, All-snoc P ys x hs k)

no_twin : {x w : Widget} (s t : String) → str_eq s t ≡ false → s ≡ t → x ≡ w
no_twin s t far same = ground (arith, eq_iff s t)

or_chain :
    {A : Type 0} (h a : Bool) (x y : A)
    → (if a then x else if h then x else y) ≡ (if h || a then x else y)
or_chain true true x y = refl
or_chain true false x y = refl
or_chain false a x y = refl

-- The widgets with the id of one of them are that one.
Distinct-same :
    (ws : List Widget) (w : Widget) → Distinct ws → Memᴰ w ws → All (λ v. v.id ≡ w.id → v ≡ w) ws
Distinct-same [] w d m = elim m [ ]
Distinct-same (v ∷ ws) w (far, d) (head e) =
    (λ _. sym e, All-map _ _ (λ x h same. no_twin x.id v.id h (same ∙ ap (λ u. u.id) e)) ws far)
Distinct-same (v ∷ ws) w (far, d) (tail m) =
    (λ same. no_twin w.id v.id (All-Mem _ ws w far m) (sym same), Distinct-same ws w d m)

module _ (codes : String → Codes) (browsers : Error → String) (answer : Query → Result Json) where
  start_run :
      (vars : QueryVars) (ws : List Widget) (s : View)
      → (start codes browsers answer vars ws s).run ≡ s.run
  unfolding start
  start_run vars [] s = refl
  start_run vars (w ∷ ws) s = start_run vars ws (start_widget codes browsers answer vars w s)

  -- What holds of the queries made before, and of those of the widgets, holds of all.
  start-made :
      (P : Query → Type 0) (vars : QueryVars) (ws : List Widget) (s : View)
      → All P s.made
      → All (λ v. P (query_of codes browsers answer s.run vars v)) ws
      → All P (start codes browsers answer vars ws s).made
  unfolding start
  start-made P vars [] s h k = h
  start-made P vars (w ∷ ws) s h (k, ks) =
      start-made P vars ws (start_widget codes browsers answer vars w s) (All-snoc P s.made _ h k)
        ks

  -- A widget of the list is loading.
  kept_loading :
      (vars : QueryVars) (id : String) (ws : List Widget) (s : View)
      → shown id s.states ≡ some loading
      → shown id (start codes browsers answer vars ws s).states ≡ some loading
  unfolding start
  kept_loading vars id [] s h = h
  kept_loading vars id (w ∷ ws) s h =
      kept_loading vars id ws (start_widget codes browsers answer vars w s) (ground (arith, h))

  shown-start :
      (vars : QueryVars) (w : Widget) (ws : List Widget) (s : View)
      → Memᴰ w ws
      → shown w.id (start codes browsers answer vars ws s).states ≡ some loading
  unfolding start
  shown-start vars w [] s m = elim m [ ]
  shown-start vars w (v ∷ ws) s (head e) =
      kept_loading vars w.id ws (start_widget codes browsers answer vars v s)
        (ground (arith, eq_iff v.id w.id, ap (λ u. u.id) e))
  shown-start vars w (v ∷ ws) s (tail m) =
      shown-start vars w ws (start_widget codes browsers answer vars v s) m

  abbrev IsNumbered : View → Type 0
  IsNumbered s = All (λ q. q.run ≤ s.run) s.made

  if_same : (q : Query) (s : View) → IsNumbered s → IsNumbered (settled codes browsers answer q s)
  unfolding settled
  if_same q s h = elim (Bool-cases (q.run == s.run)) [ inl e ↦ rw e h | inr e ↦ rw e h ]

  IsNumbered-step :
      (e : Event) (s : View) → IsNumbered s → IsNumbered (step codes browsers answer e s)
  IsNumbered-step (effect vars ws) s h = rw (start_run vars ws (record s { run = suc s.run })) (
      start-made (λ q. q.run ≤ suc s.run) vars ws (record s { run = suc s.run })
        (All-map _ _ (λ q l. omega arith) s.made h) (holds_everywhere _ (λ v. omega arith) ws))
  IsNumbered-step (settle q) s h = if_same q s h
  IsNumbered-step leave s h = All-map _ _ (λ q l. omega arith) s.made h

  IsNumbered-steps :
      (es : List Event) (s : View) → IsNumbered s → IsNumbered (steps codes browsers answer es s)
  IsNumbered-steps [] s h = h
  IsNumbered-steps (e ∷ es) s h =
      IsNumbered-steps es (step codes browsers answer e s) (IsNumbered-step e s h)

  settled_run : (q : Query) (s : View) → (settled codes browsers answer q s).run ≡ s.run
  unfolding settled
  settled_run q s = elim (Bool-cases (q.run == s.run)) [ inl e ↦ rw e | inr e ↦ rw e ]

  -- What is known of the queries of a run: that for the id of a widget is the one for its text.
  abbrev Agrees : ℕ → QueryVars → Widget → Query → Type 0
  Agrees run vars w q = q.run ≡ run → q.id ≡ w.id → q ≡ query_of codes browsers answer run vars w

  made-Agrees :
      (vars : QueryVars) (w : Widget) (ws : List Widget) (s : View)
      → IsNumbered s
      → Distinct ws
      → Memᴰ w ws
      → All
          (Agrees (suc s.run) vars w)
          (start codes browsers answer vars ws (record s { run = suc s.run })).made
  made-Agrees vars w ws s h d m =
      start-made (Agrees (suc s.run) vars w) vars ws (record s { run = suc s.run })
        (All-map _ _ (λ q l same _. ground arith) s.made h)
        (All-map _ _
          (λ v only _ same. ap (query_of codes browsers answer (suc s.run) vars) (only same)) ws
          (Distinct-same ws w d m))

  -- After one query is settled.
  shown-settled :
      (vars : QueryVars) (w : Widget) (run : ℕ) (q : Query) (s : View) (c : WidgetState)
      → s.run ≡ run
      → Agrees run vars w q
      → shown w.id s.states ≡ some c
      → shown w.id (settled codes browsers answer q s).states
        ≡ some (
            if q.run == run && str_eq q.id w.id
            then state_of codes browsers answer (answer (query_of codes browsers answer run vars w))
            else c)
  unfolding settled
  shown-settled vars w run q s c same agrees h = grind (arith, eq_iff q.id w.id)

  abbrev expected : ℕ → QueryVars → Widget → List Query → WidgetState → WidgetState
  expected run vars w qs c =
      if arrived run w.id qs
      then state_of codes browsers answer (answer (query_of codes browsers answer run vars w))
      else c

  shown-steps :
      (vars : QueryVars) (w : Widget) (run : ℕ) (qs : List Query) (s : View) (c : WidgetState)
      → s.run ≡ run
      → All (Agrees run vars w) qs
      → shown w.id s.states ≡ some c
      → shown w.id (steps codes browsers answer (map settle qs) s).states
        ≡ some (expected run vars w qs c)
  shown-steps vars w run [] s c same agrees h = h
  shown-steps vars w run (q ∷ qs) s c same (agrees, rest) h =
      let now = shown-settled vars w run q s c same agrees h in
      shown-steps vars w run qs (settled codes browsers answer q s) _ (settled_run q s ∙ same) rest
        now
      ∙ ap some (or_chain (q.run == run && str_eq q.id w.id) (arrived run w.id qs) _ c)

-- Whatever has happened before: when the widgets or the variables change, and then some of the
-- queries that were made by then or before are settled, in any order, a widget is loading until
-- the query that the change has made for it is settled, and then shows the outcome of that query,
-- for the text of the widget with the values of the variables; replies of earlier queries change
-- nothing. The widgets have different ids.
pub shown-steps_current :
    (codes : String → Codes) (browsers : Error → String) (answer : Query → Result Json)
    (es : List Event) (vars : QueryVars) (ws : List Widget) (w : Widget) (qs : List Query)
    → let before = steps codes browsers answer es initial in
      let after = step codes browsers answer (effect vars ws) before in
      Distinct ws
      → Memᴰ w ws
      → All (λ q. Memᴰ q after.made) qs
      → shown w.id (steps codes browsers answer (map settle qs) after).states
        ≡ some (
            if arrived (suc before.run) w.id qs
            then state_of codes browsers answer
                (answer (query_of codes browsers answer (suc before.run) vars w))
            else loading)
shown-steps_current codes browsers answer es vars ws w qs d m made =
    let before = steps codes browsers answer es initial in
    let numbered = IsNumbered-steps codes browsers answer es initial tt in
    let s = record before { run = suc before.run } in
    let agreed = made-Agrees codes browsers answer vars w ws before numbered d m in
    shown-steps codes browsers answer vars w (suc before.run) qs
      (start codes browsers answer vars ws s) loading (start_run codes browsers answer vars ws s)
      (All-map _ _ (λ q q-made. All-Mem _ _ q agreed q-made) qs made)
      (shown-start codes browsers answer vars w ws s m)
