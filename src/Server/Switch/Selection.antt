-- ===== src/Server/Switch/Selection.antt =====
-- The selection of the open menu.
use Prim.Native.String.{String}
use falkn.Base.{
  ℕ, suc, ◌-◌, ◌<◌, ◌≡◌, inl, inr, refl, true, false, not, ◌||◌, List, [], ◌∷◌, Option, none, some,
  length, ltb, ◌==◌, All, arith, same, if_cases, get_elem?, ◌⊎◌, Bool-cases, Option-cases,
}
use falkn.Base.Int.{ℤ, pos, negsuc}
use falkn.Base.Text.{string_eq}
use falkn.Session.Live.{SessionRecord}
use falkn.Server.Switch.{
  Menu, Key, toggle, move, select, choose, close, closed_menu, found_position, toggle_menu,
  move_menu, select_menu, choose_target, press, press_all, new_menu, switchable_sessions, position,
}
use falkn.Server.Switch.Targets.{IsListed, IsListed-All, id_at-some, wrapped_lt}

pub position-lt :
    (id : String) (rs : List SessionRecord) (i : ℕ) → position id rs ≡ some i → i < length rs
unfolding position
position-lt id [] i q = cc
position-lt id (r ∷ rs) i q = elim (Bool-cases (same r.id id)) [
  | inl s ↦ let z : 0 ≡ i = cc (rw s at q) in omega (arith, z)
  | inr s ↦ elim (Option-cases (position id rs)) [
    | inl n ↦ cc (rw (s, n) at q)
    | inr (j, n) ↦
        let z : suc j ≡ i = cc (rw (s, n) at q) in omega (arith, z, position-lt id rs j n)
  ]
]

found_position-lt :
    (id : String) (rs : List SessionRecord)
    → 0 < length rs
    → found_position (position id rs) < length rs
found_position-lt id rs l = elim (Option-cases (position id rs)) [
  | inl n ↦ rw n l
  | inr (i, n) ↦ rw n (position-lt id rs i n)
]

-- The menu shows the switchable sessions of one of the lists that were fetched, in the switcher's
-- order, or none.
pub Shown : List Key → List SessionRecord → Type 0
Shown ks sessions =
    (sessions ≡ [])
    ⊎ ((records : List SessionRecord) × IsListed ks (toggle (some records))
        × (sessions ≡ switchable_sessions records))

-- The selection of an open menu is in range.
pub record InRange (ks : List Key) (menu : Menu) : Type 0 where
  pub shown : Shown ks menu.sessions
  pub selected : (menu.is_open ≡ false) ⊎ (menu.selection < length menu.sessions)

-- What the menu chooses: the session that is selected, or none when it is closed.
pub Chooses : Menu → Option String → Type 0
Chooses menu o =
    ((menu.is_open ≡ false) × (o ≡ some ""))
    ⊎ ((r : SessionRecord) × (menu.is_open ≡ true)
        × (get_elem? menu.sessions menu.selection ≡ some r)
        × (o ≡ some r.id))

module _ (ks : List Key) where
  closed_menu-InRange : (menu : Menu) → InRange ks menu → InRange ks (closed_menu menu)
  unfolding Shown
  closed_menu-InRange menu v =
      if_cases (InRange ks) menu.is_open (record menu { is_open = false; sessions = [] }) menu
        (λ o. record { shown = inl refl; selected = inl refl }) (λ o. v)

  toggle_menu-InRange :
      (id : String) (fetched : Option (List SessionRecord)) (menu : Menu)
      → IsListed ks (toggle fetched)
      → InRange ks menu
      → InRange ks (toggle_menu id fetched menu)
  unfolding toggle_menu Shown
  toggle_menu-InRange id none menu l v =
      if_cases (InRange ks) menu.is_open (closed_menu menu) menu (λ o. closed_menu-InRange menu v)
        (λ o. v)
  toggle_menu-InRange id (some records) menu l v =
      if_cases (InRange ks) menu.is_open (closed_menu menu) _ (λ o. closed_menu-InRange menu v)
        (λ o.
          if_cases (InRange ks) (length (switchable_sessions records) == 0) menu _ (λ z. v)
            (λ z. record {
              shown = inr (records, l, refl);
              selected =
                  inr (found_position-lt id (switchable_sessions records) (ground (arith, z)));
            }))

  move_menu-InRange :
      (delta : ℤ) (menu : Menu) → InRange ks menu → InRange ks (move_menu delta menu)
  unfolding move_menu
  move_menu-InRange delta menu v =
      if_cases (InRange ks) (not menu.is_open || length menu.sessions == 0) menu _ (λ z. v)
        (λ z. record {
          shown = v.shown;
          selected = inr (wrapped_lt _ (length menu.sessions) (ground (arith, z)));
        })

  select_menu-InRange :
      (index : ℤ) (menu : Menu) → InRange ks menu → InRange ks (select_menu index menu)
  unfolding select_menu
  select_menu-InRange (negsuc n) menu v = v
  select_menu-InRange (pos n) menu v =
      if_cases (InRange ks) (not menu.is_open || (n == 0 || ltb (length menu.sessions) n)) menu _
        (λ z. v)
        (λ z.
          closed_menu-InRange (record menu { selection = n - 1 })
            (record { shown = v.shown; selected = inr (ground (arith, z)) }))

  press-InRange :
      (id : String) (k : Key) (menu : Menu)
      → IsListed ks k
      → InRange ks menu
      → InRange ks (press id k menu)
  unfolding press
  press-InRange id (toggle fetched) menu l v = toggle_menu-InRange id fetched menu l v
  press-InRange id (move delta) menu l v = move_menu-InRange delta menu v
  press-InRange id (select index) menu l v = select_menu-InRange index menu v
  press-InRange id choose menu l v = closed_menu-InRange menu v
  press-InRange id close menu l v = closed_menu-InRange menu v

  press_all-Keeps :
      (id : String) (later : List Key) (menu : Menu)
      → All (IsListed ks) later
      → InRange ks menu
      → InRange ks (press_all id later menu)
  unfolding press_all
  press_all-Keeps id [] menu l v = v
  press_all-Keeps id (k ∷ later) menu l v =
      press_all-Keeps id later (press id k menu) l.1 (press-InRange id k menu l.0 v)

  choose_target_in :
      (id : String) (menu : Menu) → InRange ks menu → Chooses menu (choose_target id menu)
  unfolding choose_target Chooses
  choose_target_in id menu v = elim (Bool-cases menu.is_open) [
    | inr o ↦ inl (o, rw o refl)
    | inl o ↦ elim v.selected [
      | inl q ↦ cc
      | inr l ↦
          let (r, e, q) = id_at-some menu.sessions menu.selection l in
          let within : ltb menu.selection (length menu.sessions) ≡ true = ground (arith, l) in
          inr (r, o, e, rw (o, within) q)
    ]
  ]

new_menu-InRange : (ks : List Key) → InRange ks new_menu
unfolding new_menu Shown
new_menu-InRange ks = record { shown = inl refl; selected = inl refl }

-- Whatever keys the switcher gets and whatever session lists it fetches: what the menu shows are the
-- running sessions that are not archived of one of the fetched lists, in the switcher's order, or
-- nothing; an open menu has one of them selected; and its choice is the session selected, and none
-- when it is closed.
pub choose_target-Chooses :
    (id : String) (ks : List Key)
    → InRange ks (press_all id ks new_menu)
      × Chooses (press_all id ks new_menu) (choose_target id (press_all id ks new_menu))
choose_target-Chooses id ks =
    let v = press_all-Keeps ks id ks new_menu (IsListed-All ks) (new_menu-InRange ks) in
    (v, choose_target_in ks id (press_all id ks new_menu) v)
