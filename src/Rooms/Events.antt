-- ===== src/Rooms/Events.antt =====
-- What each event leaves of the rooms.
use zhiwei_backend.Prelude.{
  Done, ℕ, ◌≤◌, ◌≡◌, refl, sym, ap, ◌∙◌, true, false, ◌==◌, ==_iff, inl, inr, List, [], ◌∷◌, ◌++◌,
  Option, none, some, String, Bool-cases, Option-cases, arith, subst, Result, ok, err,
}
use zhiwei_backend.Prelude.Rows.{select}
use zhiwei_backend.Prelude.Rows.Laws.{bit}
use zhiwei_backend.Users.Table.{UserTable}
use zhiwei_backend.Access.Guards.{UserProject, Claims, check_project_access}
use zhiwei_backend.Rooms.Server.{
  Session, Server, Message, Event, set, connect, disconnect, broadcast, subscribed_to, ended,
  left_room, checked, answered, handle,
}
use zhiwei_backend.Rooms.Membership.{
  times, times-append, times-remove_self, IsIn, IsGuarded, IsIn-fewer, IsIn-elsewhere,
  disconnect-IsGuarded, disconnect_all-IsGuarded, admitted-IsGuarded,
}

module _ (links : List UserProject) where
  subscribed_to-IsGuarded :
      (ws project : ℕ) (session : Session) (s : Server)
      → IsGuarded links s
      → s.sessions ws ≡ some session
      → session.subscribed_project ≡ none
      → check_project_access session.user project links ≡ ok tt
      → IsGuarded links (subscribed_to ws project session s)
  unfolding IsIn connect
  subscribed_to-IsGuarded ws project session s h open_ws unsubscribed allowed = record {
    members = λ u p. elim (Bool-cases (u == ws)) [
      | inr other ↦ elim (Bool-cases (p == project)) [
        | inr e ↦ rw (other, e) (h.members u p)
        | inl e ↦
            rw (other, e)
              (IsIn-fewer links u p (s.rooms project) (s.rooms project ++ ws ∷ []) (s.sessions u)
                (stays u other)
                (subst (λ (q : ℕ). IsIn links u p (s.rooms q) (s.sessions u))
                  ((==_iff p project).0 e) (h.members u p)))
      ]
      | inl same ↦ elim (Bool-cases (p == project)) [
        | inr e ↦ rw (same, e) (inl (absent u p same))
        | inl e ↦
            rw (same, e)
              (inr (
                joins u same,
                record {
                  session = record session { subscribed_project = some project };
                  is_open = refl;
                  is_subscribed = ap (λ (q : ℕ). some q) (sym ((==_iff p project).0 e));
                  is_allowed =
                      subst (λ (q : ℕ). check_project_access session.user q links ≡ ok tt)
                        (sym ((==_iff p project).0 e)) allowed;
                },
              ))
      ]
    ];
    fresh = λ u le. elim (Bool-cases (u == ws)) [
      | inr other ↦ rw other (h.fresh u le)
      | inl same ↦
          absurd (some≢none (sym (ap s.sessions ((==_iff u ws).0 same) ∙ open_ws) ∙ h.fresh u le))
    ];
  }
    where
      some≢none : some session ≡ none → ⊥
      some≢none e = cc

      stays :
          (u : ℕ)
          → (u == ws) ≡ false
          → times u (s.rooms project ++ ws ∷ []) ≤ times u (s.rooms project)
      stays u other = omega (arith, times-append ws u (s.rooms project), not_it u other)
        where
          not_it : (u : ℕ) → (u == ws) ≡ false → bit (ws == u) ≡ 0
          not_it u other = ground arith

      absent : (u p : ℕ) → (u == ws) ≡ true → times u (s.rooms p) ≡ 0
      absent u p same =
          IsIn-elsewhere links u p (s.rooms p) session (λ e. some≢none p (sym e ∙ unsubscribed))
            (subst (λ (o : Option Session). IsIn links u p (s.rooms p) o)
              (ap s.sessions ((==_iff u ws).0 same) ∙ open_ws) (h.members u p))
        where
          some≢none : (p : ℕ) → some p ≡ none → ⊥
          some≢none p e = cc

      joins : (u : ℕ) → (u == ws) ≡ true → times u (s.rooms project ++ ws ∷ []) ≡ 1
      joins u same =
          omega (arith, times-append ws u (s.rooms project), absent u project same, it u same)
        where
          it : (u : ℕ) → (u == ws) ≡ true → bit (ws == u) ≡ 1
          it u same = ground arith

  -- The end of a session whose connection is in no room.
  closed-IsGuarded :
      (ws : ℕ) (s : Server)
      → IsGuarded links s
      → ((p : ℕ) → times ws (s.rooms p) ≡ 0)
      → IsGuarded links (record s { sessions = set s.sessions ws none })
  unfolding IsIn
  closed-IsGuarded ws s h nowhere = record {
    members = λ u p. elim (Bool-cases (u == ws)) [
      | inr other ↦ rw other (h.members u p)
      | inl same ↦
          rw same (inl (ap (λ (v : ℕ). times v (s.rooms p)) ((==_iff u ws).0 same) ∙ nowhere p))
    ];
    fresh = λ u le. elim (Bool-cases (u == ws)) [
      | inr other ↦ rw other (h.fresh u le)
      | inl same ↦ rw same refl
    ];
  }

  -- A member of a room is there once.
  IsIn-once :
      (ws project : ℕ) (room : List ℕ) (o : Option Session)
      → IsIn links ws project room o
      → times ws room ≤ 1
  unfolding IsIn
  IsIn-once ws project room o h = elim h [
    | inl z ↦ omega (arith, z)
    | inr (e, may) ↦ omega (arith, e)
  ]

  ended-IsGuarded :
      (ws : ℕ) (session : Session) (s : Server)
      → IsGuarded links s
      → s.sessions ws ≡ some session
      → IsGuarded links (ended ws session s)
  unfolding disconnect
  ended-IsGuarded ws session s h open_ws = go session.subscribed_project refl
    where
      member : (p : ℕ) → IsIn links ws p (s.rooms p) (some session)
      member p =
          subst (λ (o : Option Session). IsIn links ws p (s.rooms p) o) open_ws (h.members ws p)

      go :
          (o : Option ℕ)
          → session.subscribed_project ≡ o
          → IsGuarded links
              (let s' = left_room ws o s in record s' { sessions = set s'.sessions ws none })
      go none e = closed-IsGuarded ws s h (λ p.
          IsIn-elsewhere links ws p (s.rooms p) session (λ f. none≢some p (sym e ∙ f)) (member p))
        where
          none≢some : (p : ℕ) → none ≡ some p → ⊥
          none≢some p e = cc
      go (some q) e =
          closed-IsGuarded ws (disconnect ws q s) (disconnect-IsGuarded links ws q s h) (λ p.
            elim (Bool-cases (p == q)) [
              | inl at ↦ rw at (
                  omega (
                    arith,
                    times-remove_self ws (s.rooms q),
                    IsIn-once ws q (s.rooms q) (some session) (member q),
                  ))
              | inr other ↦ rw other (
                  IsIn-elsewhere links ws p (s.rooms p) session
                    (λ f. absurd (differs p other (sym e ∙ f))) (member p))
            ])
        where
          differs : (p : ℕ) → (p == q) ≡ false → some q ≡ some p → ⊥
          differs p other same = absurd (ground (arith, injective p same))
            where
              injective : (p : ℕ) → some q ≡ some p → q ≡ p
              injective p same = cc

  module _ (decode : String → Option Claims) (users : UserTable) where
    checked-IsGuarded :
        (ws project : ℕ) (session : Session) (r : Result Done) (s : Server)
        → IsGuarded links s
        → s.sessions ws ≡ some session
        → check_project_access session.user project links ≡ r
        → IsGuarded links (checked ws project session r s).0
    checked-IsGuarded ws project session (err e) s h open_ws c = h
    checked-IsGuarded ws project session (ok done) s h open_ws c =
        elim (Option-cases session.subscribed_project) [
          | inl e ↦ rw e (subscribed_to-IsGuarded ws project session s h open_ws e c)
          | inr (old, e) ↦ rw e h
        ]

    answered-IsGuarded :
        (ws : ℕ) (session : Session) (message : Message) (s : Server)
        → IsGuarded links s
        → s.sessions ws ≡ some session
        → IsGuarded links (answered decode users links ws session message s).0
    answered-IsGuarded ws session (Message.subscribe project) s h open_ws =
        checked-IsGuarded ws project session _ s h open_ws refl
    answered-IsGuarded ws session Message.other_message s h open_ws = h
    answered-IsGuarded ws session Message.malformed s h open_ws =
        ended-IsGuarded ws session s h open_ws

    pub handle-IsGuarded :
        (e : Event) (s : Server)
        → IsGuarded links s
        → IsGuarded links (handle decode users links e s).0
    unfolding handle broadcast
    handle-IsGuarded (Event.handshake token) s h = admitted-IsGuarded links _ s h
    handle-IsGuarded (Event.receive ws message) s h = elim (Option-cases (s.sessions ws)) [
      | inl e ↦ rw e h
      | inr (session, e) ↦ rw e (answered-IsGuarded ws session message s h e)
    ]
    handle-IsGuarded (Event.leave ws) s h = elim (Option-cases (s.sessions ws)) [
      | inl e ↦ rw e h
      | inr (session, e) ↦ rw e (ended-IsGuarded ws session s h e)
    ]
    handle-IsGuarded (Event.publish project text fails) s h =
        disconnect_all-IsGuarded links (select fails (s.rooms project)) project s h
