-- ===== src/Dashboard/ApiKeys/Own.antt =====
-- Which calls the page of the keys can make.
use mathlib.Core.List.{Memᴰ}
use bataudit.Prelude.{
  String, Bool, true, false, not, ◌&&◌, ◌||◌, ◌≡◌, refl, ap, ◌⊎◌, inl, inr, Option, none, some, [],
  ◌∷◌, str_eq, eq_iff, arith, if◌then◌else◌, ◌or_else◌, Entries, entry, All, All-of_Mem, any,
  Bool-cases, any-Mem,
}
use bataudit.Prelude.Text.{truthy, truthy_text}
use bataudit.Web.Clients.Endpoint.{
  Endpoint, create_project as posts_project, create_api_key, revoke_api_key,
  add_member as posts_member, update_member_role, remove_member as deletes_member,
}
use bataudit.Dashboard.Mutations.{
  Mutation, use_create_api_key, use_revoke_api_key, use_create_project, use_add_member,
  use_remove_member, use_update_member_role,
}
use bataudit.Dashboard.Screen.{text, button, when, each}
use bataudit.Dashboard.Screen.Offers.{
  Offers, Allows, Allows-Offers, Allows-append, Allows-when, Allows-each, Permits-button,
  Permits-choice, ◌and◌,
}
use bataudit.Dashboard.ApiKeys.{
  Project, ApiKey, Member, Tab, keys, members, ApiKeysPage, initial, Action, create_project,
  open_tab, choose_role, generate_key, add_member, revoke_key, change_role, remove_member,
  is_expanded, act, call, Event, project_created, copy_over, project_failed, key_created,
  member_added, ended,
}
use bataudit.Dashboard.ApiKeys.View.{
  Loaded, project_card, key_card, key_row, keys_tab, member_row, members_tab, tab_screen,
  project_row, projects_list, view, is_empty,
}

-- A use of the page: actions that it offers, whatever is loaded then, and ends of calls.
pub data Reach (slug date : String → String) : ApiKeysPage → Type 0 where
  start : Reach slug date initial
  acts :
      {s : ApiKeysPage} (d : Loaded) (a : Action)
      → Reach slug date s
      → Offers a (view date d s)
      → Reach slug date (act slug a s)
  ends : {s : ApiKeysPage} (e : Event) → Reach slug date s → Reach slug date (ended e s)

abbrev pub IsRole : String → Type 0
IsRole role = (role ≡ "viewer") ⊎ (role ≡ "admin")

-- What a call of the page may be, where the project is the expanded one.
abbrev pub IsOwn : Loaded → Option String → Endpoint → Type 0
IsOwn d project (posts_project name slug) = (truthy_text name ≡ true) × (truthy_text slug ≡ true)
IsOwn d project (create_api_key id name) = (project ≡ some id) × (truthy_text name ≡ true)
IsOwn d project (revoke_api_key id) = any (λ k. k.active && str_eq k.id id) d.keys ≡ true
IsOwn d project (posts_member id email role) =
    (project ≡ some id) × (truthy_text email ≡ true) × IsRole role
IsOwn d project (update_member_role id user_id role) =
    (project ≡ some id)
    × (any (λ m. not (str_eq m.role "owner") && str_eq m.user_id user_id) d.members ≡ true)
    × IsRole role
IsOwn d project (deletes_member id user_id) =
    (project ≡ some id)
    × (any (λ m. not (str_eq m.role "owner") && str_eq m.user_id user_id) d.members ≡ true)
IsOwn d project _ = ⊥

abbrev pub CallIsOwn : Loaded → Option String → Option Mutation → Type 0
CallIsOwn d project none = Unit
CallIsOwn d project (some m) = IsOwn d project m.mutation_fn

-- The roles that were chosen.
abbrev RolesFit : ApiKeysPage → Type 0
RolesFit s = All (λ e. IsRole e.1) s.new_member_role

entry-IsRole :
    (id : String) (es : Entries String)
    → All (λ e. IsRole e.1) es
    → IsRole (entry id es or_else "viewer")
entry-IsRole id [] h = inl refl
entry-IsRole id ((k, v) ∷ es) (h, hs) =
    elim (str_eq k id) as (λ b. IsRole ((if b then some v else entry id es) or_else "viewer")) [
      | true ↦ h
      | false ↦ entry-IsRole id es hs
    ]

is_expanded_eq :
    (project : Option String) (id : String) → is_expanded project id ≡ true → project ≡ some id
is_expanded_eq none id h = cc
is_expanded_eq (some q) id h = ap some ((eq_iff q id).0 h)

truthy_entry :
    (o : Option String) (pending : Bool)
    → not (not (truthy o) || pending) ≡ true
    → truthy_text (o or_else "") ≡ true
truthy_entry none pending h = ground arith
truthy_entry (some v) pending h = ground arith

module _ (date : String → String) (d : Loaded) (s : ApiKeysPage) (fit : RolesFit s) where
  -- That an action starts no call but a proper one, and chooses no role but those two.
  abbrev Fits : Action → Type 0
  Fits (choose_role id role) = IsRole role
  Fits a = CallIsOwn d s.expanded_project (call a s)

  project_card-Fits : Allows Fits (project_card d s)
  unfolding call use_create_project
  project_card-Fits =
      tt
      and (λ v. tt)
      and (λ v. tt)
      and Permits-button Fits _ "Create" create_project (λ h. ground arith)
      and tt
      and Allows-when Fits _ (text s.project_error ∷ []) (λ h. (tt, tt))

  key_card-Fits : (copied : Bool) (key : Option String) → Allows Fits (key_card copied key)
  unfolding call
  key_card-Fits copied none = tt
  key_card-Fits copied (some key) = ground arith

  key_row-Fits : (k : ApiKey) → Memᴰ k d.keys → Allows Fits (key_row date k)
  unfolding call use_revoke_api_key
  key_row-Fits k m =
      tt
      and tt
      and tt
      and Allows-when Fits k.active (button true "Revoke" (revoke_key k.id) ∷ [])
          (λ h. (any-Mem _ d.keys k m (ground (arith, eq_iff k.id k.id)), tt))

  -- The call for a member names the expanded project and someone who is not an owner.
  member_own :
      (m : Member)
      → Memᴰ m d.members
      → not (str_eq m.role "owner") ≡ true
      → any (λ n. not (str_eq n.role "owner") && str_eq n.user_id m.user_id) d.members ≡ true
  member_own m mem h = any-Mem _ d.members m mem (ground (arith, eq_iff m.user_id m.user_id))

  member_row-Fits :
      (id : String)
      → s.expanded_project ≡ some id
      → (m : Member) → Memᴰ m d.members
      → Allows Fits (member_row m)
  unfolding call use_remove_member use_update_member_role
  member_row-Fits id e m mem =
      tt
      and tt
      and Permits-choice Fits (not (str_eq m.role "owner")) m.role ("viewer" ∷ "admin" ∷ [])
          (change_role m.user_id)
          (λ h. (
            (named_project, member_own m mem h, inl refl),
            ((named_project, member_own m mem h, inr refl), tt),
          ))
      and Allows-when Fits (not (str_eq m.role "owner"))
          (button true "" (remove_member m.user_id) ∷ [])
          (λ h. ((named_project, member_own m mem h), tt))
    where
      named_project : s.expanded_project ≡ some (s.expanded_project or_else "")
      named_project = rw e refl

  keys_tab-Fits : (id : String) → s.expanded_project ≡ some id → Allows Fits (keys_tab date d s id)
  unfolding call use_create_api_key
  keys_tab-Fits id e =
      (λ v. tt)
      and Permits-button Fits _ "Generate key" (generate_key id)
          (λ h. (e, truthy_entry (entry id s.new_key_name) d.creating_key h))
      and rows (is_empty d.keys)
    where
      rows :
          (b : Bool)
          → Allows Fits
              (if b then text "No keys yet for this project." ∷ [] else each (key_row date) d.keys)
      rows true = (tt, tt)
      rows false = Allows-each Fits (key_row date) d.keys (All-of_Mem _ d.keys key_row-Fits)

  members_tab-Fits : (id : String) → s.expanded_project ≡ some id → Allows Fits (members_tab d s id)
  unfolding call use_add_member
  members_tab-Fits id e =
      (λ v. tt)
      and (inl refl, (inr refl, tt))
      and Permits-button Fits _ "Add member" (add_member id) (λ h. (
        rw e refl,
        truthy_entry (entry id s.new_member_email) d.adding_member h,
        entry-IsRole id s.new_member_role fit,
      ))
      and rows (is_empty d.members)
    where
      rows :
          (b : Bool)
          → Allows Fits (if b then text "No members yet." ∷ [] else each member_row d.members)
      rows true = (tt, tt)
      rows false =
          Allows-each Fits member_row d.members (All-of_Mem _ d.members (member_row-Fits id e))

  tab-Fits :
      (id : String)
      → s.expanded_project ≡ some id
      → (tab : Tab) → Allows Fits (tab_screen date d s id tab)
  tab-Fits id e keys = keys_tab-Fits id e
  tab-Fits id e members = members_tab-Fits id e

  project_row-Fits : (p : Project) → Allows Fits (project_row date d s p)
  unfolding call
  project_row-Fits p =
      tt
      and tt
      and tt
      and Allows-when Fits (is_expanded s.expanded_project p.id)
          (button true "API Keys" (open_tab p.id keys)
            ∷ button true "Members" (open_tab p.id members)
            ∷ tab_screen date d s p.id (entry p.id s.active_tab or_else keys))
          (λ h.
            tt
            and tt
            and tab-Fits p.id (is_expanded_eq s.expanded_project p.id h)
                (entry p.id s.active_tab or_else keys))

  projects_list-Fits : Allows Fits (projects_list date d s)
  unfolding projects_list
  projects_list-Fits = elim (Bool-cases d.is_loading) [
    | inl e ↦ rw e (tt, tt)
    | inr e ↦ elim (Bool-cases (is_empty d.projects)) [
      | inl f ↦ rw (e, f) (tt, (tt, tt))
      | inr f ↦
          rw (e, f)
            (Allows-each Fits (project_row date d s) d.projects
              (All-of_Mem _ d.projects (λ p m. project_row-Fits p)))
    ]
  ]

  view-Fits : Allows Fits (view date d s)
  unfolding view call
  view-Fits =
      tt
      and tt
      and tt
      and Allows-append Fits (when s.show_new_project (project_card d s)) _
          (Allows-when Fits s.show_new_project (project_card d s) (λ h. project_card-Fits))
          (Allows-append Fits (key_card s.copied s.revealed_key) _
            (key_card-Fits s.copied s.revealed_key) projects_list-Fits)

-- What fits is a proper call, and keeps the roles.
Fits-call :
    (date : String → String) (d : Loaded) (s : ApiKeysPage) (fit : RolesFit s) (a : Action)
    → Fits date d s fit a
    → CallIsOwn d s.expanded_project (call a s)
unfolding call
Fits-call date d s fit a h = ground arith

Fits-act :
    (slug date : String → String) (d : Loaded) (s : ApiKeysPage) (fit : RolesFit s) (a : Action)
    → Fits date d s fit a
    → RolesFit (act slug a s)
unfolding act
Fits-act slug date d s fit a h = ground arith

ended-RolesFit : (e : Event) (s : ApiKeysPage) → RolesFit s → RolesFit (ended e s)
unfolding ended
ended-RolesFit project_created s h = h
ended-RolesFit (project_failed message) s h = h
ended-RolesFit (key_created key) s h = h
ended-RolesFit (member_added id) s h = h
ended-RolesFit copy_over s h = h

Reach-RolesFit : (slug date : String → String) {s : ApiKeysPage} → Reach slug date s → RolesFit s
Reach-RolesFit slug date start = tt
Reach-RolesFit slug date (acts {s} d a r offered) =
    let fit = Reach-RolesFit slug date r in
    Fits-act slug date d s fit a
      (Allows-Offers (Fits date d s fit) a (view date d s) (view-Fits date d s fit) offered)
Reach-RolesFit slug date (ends {s} e r) = ended-RolesFit e s (Reach-RolesFit slug date r)

-- However the page is used, and whatever is loaded: a call that one of its controls starts is about
-- the project that is expanded, or makes a project with a name and a slug that are not empty. A new
-- key has a name, a new member an address and the role of a viewer or an administrator; only active
-- keys of the list are revoked, and only members of the list who are not owners get one of those
-- two roles or are removed.
pub call-IsOwn :
    (slug date : String → String) (s : ApiKeysPage) (d : Loaded) (a : Action)
    → Reach slug date s
    → Offers a (view date d s)
    → CallIsOwn d s.expanded_project (call a s)
call-IsOwn slug date s d a r offered =
    let fit = Reach-RolesFit slug date r in
    Fits-call date d s fit a
      (Allows-Offers (Fits date d s fit) a (view date d s) (view-Fits date d s fit) offered)
