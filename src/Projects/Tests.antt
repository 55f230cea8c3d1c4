-- ===== src/Projects/Tests.antt =====
-- A member whose permission is raised from reading to writing.
use zhiwei_backend.Prelude.{◌≡◌, refl, true, [], ◌∷◌, arith}
use zhiwei_backend.Users.Table.{User}
use zhiwei_backend.Projects.Members.{Membership, assign_user, set_link, new_link}
use zhiwei_backend.Projects.Assignment.{AssignsUser, assign_user-AssignsUser}

abbrev member : User
member = record {
  id = 2;
  username = "guest";
  email = "guest@a";
  hashed_password = "hidden";
  role = "user";
  is_active = true;
}

abbrev start : Membership
start = record {
  projects = 4 ∷ 5 ∷ [];
  users = record { rows = member ∷ []; next_id = 3 };
  links = new_link 2 5 "read" ∷ [];
}

raised_run : (assign_user 5 2 "write" start).1.links ≡ new_link 2 5 "write" ∷ []
unfolding assign_user set_link
raised_run = refl

assign_user-AssignsUser_example : AssignsUser 5 member "write" start (assign_user 5 2 "write" start)
assign_user-AssignsUser_example =
    assign_user-AssignsUser 5 member "write" start (λ v q. ground arith) refl
