-- ===== src/Rooms/Membership.antt =====
-- Who is in a room.
use zhiwei_backend.Prelude.{
  ℕ, ◌+◌, ◌-◌, ◌≤◌, ◌≡◌, sym, ap, ◌∙◌, Bool, ◌==◌, ==_iff, ◌⊎◌, inl, inr, List, [], ◌∷◌, ◌++◌,
  Option, none, some, Bool-cases, arith, subst, Result, ok, err,
}
use zhiwei_backend.Prelude.Rows.{count}
use zhiwei_backend.Prelude.Rows.Laws.{bit}
use zhiwei_backend.Users.Table.{User}
use zhiwei_backend.Access.Guards.{UserProject, check_project_access}
use zhiwei_backend.Rooms.Server.{Session, Server, remove, disconnect, disconnect_all, admitted}

abbrev pub is_ws : ℕ → ℕ → Bool
is_ws ws v = v == ws

abbrev pub times : ℕ → List ℕ → ℕ
times ws vs = count (is_ws ws) vs

pub times-remove_self : (ws : ℕ) (vs : List ℕ) → times ws (remove ws vs) ≡ times ws vs - 1
times-remove_self ws [] = omega arith
times-remove_self ws (v ∷ vs) = ground (arith, times-remove_self ws vs)

pub times-remove_le : (ws u : ℕ) (vs : List ℕ) → times u (remove ws vs) ≤ times u vs
times-remove_le ws u [] = omega arith
times-remove_le ws u (v ∷ vs) = ground (arith, times-remove_le ws u vs)

pub times-append : (ws u : ℕ) (vs : List ℕ) → times u (vs ++ ws ∷ []) ≡ times u vs + bit (ws == u)
times-append ws u [] = ground arith
times-append ws u (v ∷ vs) = ground (arith, times-append ws u vs)

-- The session is subscribed to the project, and its user may read the project.
pub record MayHear (links : List UserProject) (project : ℕ) (o : Option Session) : Type 0 where
  pub session : Session
  pub is_open : o ≡ some session
  pub is_subscribed : session.subscribed_project ≡ some project
  pub is_allowed : check_project_access session.user project links ≡ ok tt

module _ (links : List UserProject) where
  -- A connection is once in the room of a project, and may hear it, or it is not in the room.
  unfoldable pub IsIn : ℕ → ℕ → List ℕ → Option Session → Type 0
  IsIn ws project room o = (times ws room ≡ 0) ⊎ ((times ws room ≡ 1) × MayHear links project o)

  -- Every member of every room may hear it, and the numbers to come have no session.
  pub record IsGuarded (s : Server) : Type 0 where
    pub members : (ws project : ℕ) → IsIn ws project (s.rooms project) (s.sessions ws)
    pub fresh : (ws : ℕ) → s.next_connection ≤ ws → s.sessions ws ≡ none

  pub IsIn-fewer :
      (ws project : ℕ) (room smaller : List ℕ) (o : Option Session)
      → times ws smaller ≤ times ws room
      → IsIn ws project room o
      → IsIn ws project smaller o
  unfolding IsIn
  IsIn-fewer ws project room smaller o le h = elim h [
    | inl e ↦ inl (omega (arith, le, e))
    | inr (e, may) ↦ elim (Bool-cases (times ws smaller == 0)) [
      | inl z ↦ inl ((==_iff (times ws smaller) 0).0 z)
      | inr z ↦ inr (ground arith, may)
    ]
  ]

  -- A connection with no session, or of another project, is not in the room.
  pub IsIn-closed :
      (ws project : ℕ) (room : List ℕ) (o : Option Session)
      → o ≡ none
      → IsIn ws project room o
      → times ws room ≡ 0
  unfolding IsIn
  IsIn-closed ws project room o e h = elim h [
    | inl z ↦ z
    | inr (_, may) ↦ absurd (none≢some may.session (sym e ∙ may.is_open))
  ]
    where
      none≢some : (x : Session) → none ≡ some x → ⊥
      none≢some x e = cc

  pub IsIn-elsewhere :
      (ws project : ℕ) (room : List ℕ) (session : Session)
      → (session.subscribed_project ≡ some project → ⊥)
      → IsIn ws project room (some session)
      → times ws room ≡ 0
  unfolding IsIn
  IsIn-elsewhere ws project room session other h = elim h [
    | inl z ↦ z
    | inr (_, may) ↦
        let same : session ≡ may.session = some_injective session may.session may.is_open in
        absurd (other (ap (λ (x : Session). x.subscribed_project) same ∙ may.is_subscribed))
  ]
    where
      some_injective : (x y : Session) → some x ≡ some y → x ≡ y
      some_injective x y e = cc

  pub disconnect-IsGuarded :
      (ws project : ℕ) (s : Server) → IsGuarded s → IsGuarded (disconnect ws project s)
  unfolding disconnect
  disconnect-IsGuarded ws project s h = record {
    members = λ u p. elim (Bool-cases (p == project)) [
      | inr e ↦ rw e (h.members u p)
      | inl e ↦ rw e (
          IsIn-fewer u p (s.rooms project) (remove ws (s.rooms project)) (s.sessions u)
            (times-remove_le ws u (s.rooms project))
            (subst (λ (q : ℕ). IsIn u p (s.rooms q) (s.sessions u)) ((==_iff p project).0 e)
              (h.members u p)))
    ];
    fresh = h.fresh;
  }

  pub disconnect_all-IsGuarded :
      (wss : List ℕ) (project : ℕ) (s : Server)
      → IsGuarded s
      → IsGuarded (disconnect_all wss project s)
  disconnect_all-IsGuarded [] project s h = h
  disconnect_all-IsGuarded (ws ∷ wss) project s h =
      disconnect_all-IsGuarded wss project (disconnect ws project s)
        (disconnect-IsGuarded ws project s h)

  pub admitted-IsGuarded : (r : Result User) (s : Server) → IsGuarded s → IsGuarded (admitted r s).0
  unfolding IsIn
  admitted-IsGuarded (err e) s h = h
  admitted-IsGuarded (ok u) s h = record {
    members = λ ws p. elim (Bool-cases (ws == s.next_connection)) [
      | inr e ↦ rw e (h.members ws p)
      | inl e ↦ rw e (
          inl (
            IsIn-closed ws p (s.rooms p) (s.sessions ws) (h.fresh ws (ground arith))
              (h.members ws p)))
    ];
    fresh = λ ws le. ground (arith, h.fresh ws (omega (arith, le)));
  }
