-- ===== src/Accounts/Table.antt =====
-- The table of users: rows under the ids that were given out.
use guardian_tracker.Prelude.{
  ap, ℕ, ◌+◌, ◌<◌, ◌≤◌, ◌≡◌, refl, Option, none, some, [], ◌∷◌, String, if◌then◌else◌, ◌==◌, nat_eq,
  int_eq, string_eq, arith, Assoc, lookup, insert, Bool-cases, inl, inr, beq→eq, beq_refl, Distinct,
  insert-Distinct,
}
use guardian_tracker.Accounts.{User, UserStore, find_member, is_admin, count_admins}

-- How much a row adds to the count.
abbrev pub weight : Option User → ℕ
weight none = 0
weight (some u) = if is_admin u then 1 else 0

pub count_admins-insert :
    (i : ℕ) (u : User) (us : Assoc ℕ User)
    → count_admins (insert i u us) + weight (lookup i us) ≡ count_admins us + weight (some u)
unfolding count_admins insert lookup
count_admins-insert i u [] = omega arith
count_admins-insert i u ((j, v) ∷ us) = ground (arith, count_admins-insert i u us)

-- Every id in the table was given out.
abbrev pub AllBelow : ℕ → Assoc ℕ User → Type 0
AllBelow n [] = Unit {0}
AllBelow n ((i, u) ∷ us) = (i < n) × AllBelow n us

pub record IsUserStore (st : UserStore) : Type 0 where
  pub given : AllBelow st.next_id st.users
  pub distinct : Distinct st.users

pub AllBelow-lookup : (n i : ℕ) (us : Assoc ℕ User) → n ≤ i → AllBelow n us → lookup i us ≡ none
unfolding lookup
AllBelow-lookup n i [] h b = refl
AllBelow-lookup n i ((j, u) ∷ us) h b = ground (arith, AllBelow-lookup n i us h b.1, b.0)

pub lookup-AllBelow :
    (n i : ℕ) {u : User} (us : Assoc ℕ User) → AllBelow n us → lookup i us ≡ some u → i < n
unfolding lookup
lookup-AllBelow n i {u} [] b h = absurd (cc)
lookup-AllBelow n i {u} ((j, v) ∷ us) b h = elim (Bool-cases (j == i)) [
  | inl same ↦ omega (arith, beq→eq j i same, b.0)
  | inr other ↦ lookup-AllBelow n i {u = u} us b.1 (ground arith)
]

pub AllBelow-insert :
    (n i : ℕ) (u : User) (us : Assoc ℕ User) → i < n → AllBelow n us → AllBelow n (insert i u us)
unfolding insert
AllBelow-insert n i u [] h b = (h, tt)
AllBelow-insert n i u ((j, v) ∷ us) h b = elim (Bool-cases (j == i)) [
  | inl same ↦ rw same (b.0, b.1)
  | inr other ↦ rw other (b.0, AllBelow-insert n i u us h b.1)
]

pub AllBelow-later : (n m : ℕ) (us : Assoc ℕ User) → n ≤ m → AllBelow n us → AllBelow m us
AllBelow-later n m [] h b = tt
AllBelow-later n m ((i, u) ∷ us) h b = (omega (arith, b.0), AllBelow-later n m us h b.1)

-- The row of a membership is the row under its id.
pub find_member-lookup :
    (m : String) (i : ℕ) (u : User) (us : Assoc ℕ User)
    → Distinct us
    → find_member m us ≡ some (i, u)
    → lookup i us ≡ some u
unfolding find_member lookup
find_member-lookup m i u [] d h = absurd (cc)
find_member-lookup m i u ((j, v) ∷ us) d h = elim (Bool-cases (v.membership_id == m)) [
  | inl here ↦ ground (arith, beq_refl j)
  | inr there ↦
      let rest = find_member-lookup m i u us d.1 (ground arith) in
      elim (Bool-cases (j == i)) [
        | inl same ↦ absurd (ground (arith, beq→eq j i same, d.0))
        | inr other ↦ rw other rest
      ]
]

-- A row that is written again under its own id.
pub rewrite_row :
    (i : ℕ) (old new : User) (st : UserStore)
    → IsUserStore st
    → lookup i st.users ≡ some old
    → IsUserStore (record st { users = insert i new st.users })
      × (count_admins (insert i new st.users) + weight (some old)
          ≡ count_admins st.users + weight (some new))
rewrite_row i old new st w found = (
  record {
    given =
        AllBelow-insert st.next_id i new st.users
          (lookup-AllBelow st.next_id i st.users w.given found) w.given;
    distinct = insert-Distinct i new st.users w.distinct;
  },
  omega (arith, count_admins-insert i new st.users, ap weight found),
)

-- A row written again is still the row of its membership.
pub find_member-insert :
    (m : String) (i : ℕ) (u u' : User) (us : Assoc ℕ User)
    → Distinct us
    → find_member m us ≡ some (i, u)
    → u'.membership_id ≡ u.membership_id
    → find_member m (insert i u' us) ≡ some (i, u')
unfolding find_member insert lookup
find_member-insert m i u u' [] d h same = absurd (cc)
find_member-insert m i u u' ((j, v) ∷ us) d h same = elim (Bool-cases (v.membership_id == m)) [
  | inl here ↦ ground (arith, same)
  | inr there ↦
      let rest = find_member-insert m i u u' us d.1 (ground arith) same in
      let found = find_member-lookup m i u us d.1 (ground arith) in
      elim (Bool-cases (j == i)) [
        | inl eq ↦ absurd (ground (arith, beq→eq j i eq, d.0))
        | inr other ↦ rw (other, there) rest
      ]
]
