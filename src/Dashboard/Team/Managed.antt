-- ===== src/Dashboard/Team/Managed.antt =====
-- Who the page of the members lets manage them.
use mathlib.Core.List.{Memᴰ}
use bataudit.Prelude.{ℕ, String, true, false, ◌≡◌, refl, some, List, str_eq, if◌then◌else◌}
use bataudit.Prelude.Text.{truthy_text}
use bataudit.Dashboard.Screen.Offers.{Offers, here, there, press, Offers-each, Offers-append_right}
use bataudit.Dashboard.ApiKeys.{Member}
use bataudit.Dashboard.Team.MembersView.{
  MembersPage, Loaded, click_remove, has_owner, current_user_role, can_manage, member_row, heading,
  add_card, note, view,
}

-- The role that is taken for that of the current user may manage, whoever is signed in.
can_manage-current_user_role :
    (members : List Member) → can_manage (current_user_role members) ≡ true
can_manage-current_user_role members =
    elim (has_owner members) as (λ b. can_manage (if b then "owner" else "admin") ≡ true) [
      | true ↦ refl
      | false ↦ refl
    ]

member_row-Offers :
    (d : Loaded) (s : MembersPage) (role : String) (m : Member)
    → can_manage role ≡ true
    → str_eq m.role "owner" ≡ false
    → d.removing m.user_id ≡ false
    → Offers (click_remove m.user_id) (member_row d s role m)
member_row-Offers d s role m may other idle =
    rw (may, other, idle) (there (there (there (here (press refl)))))

-- Whoever is signed in, the page of a project offers the removal of each member of the list who is
-- not an owner, as long as no removal of that member is on its way.
pub view-Offers :
    (text_of : ℕ → String) (trim : String → String) (project : String) (d : Loaded)
    (s : MembersPage) (m : Member)
    → truthy_text project ≡ true
    → Memᴰ m d.members
    → str_eq m.role "owner" ≡ false
    → d.removing m.user_id ≡ false
    → Offers (click_remove m.user_id) (view text_of trim (some project) d s)
unfolding view
view-Offers text_of trim project d s m h mem other idle =
    let row = member_row d s (current_user_role d.members) in
    rw h (
      Offers-append_right (heading text_of d) _ (
        Offers-append_right (add_card trim d s) _ (
          Offers-append_right (note d) _ (
            Offers-each row d.members m mem (
              member_row-Offers d s (current_user_role d.members) m
                (can_manage-current_user_role d.members) other idle)))))
