-- ===== src/Send/Tests.antt =====
-- A link for two files, with a password.
use drive_server_wip.Prelude.{
  ℕ, ◌+◌, ◌≡◌, refl, String, Bool, true, Option, none, some, List, [], ◌∷◌, arith,
}
use drive_server_wip.Prelude.Outcome.{ok, err, forbidden, not_found, ◌>>=◌}
use drive_server_wip.Folders.Names.{is_blank, is_space}
use drive_server_wip.Send.{
  LinkId, SendLink, SendLinkItemDto, Store, is_protected, add_view, update_link, new_link,
  hash_password, deterministic_encryption, create_send_link_with_items, create_send_links,
  get_by_id, unlock_link,
}
use drive_server_wip.Send.Passwords.{IsVectored, unlock_link-refuses}

-- A cipher that adds its vector to the one text that it knows.
abbrev seal : ℕ → String → Option ℕ
seal v text = some (100 + v)

seal-IsVectored : IsVectored seal
seal-IsVectored v w text c e e' = ground arith

abbrev validate : LinkId → Bool
validate id = true

abbrev items : List SendLinkItemDto
items =
    record { id = 1; type = "file"; size = 30; parent_folder = none }
    ∷ record { id = 2; type = "file"; size = 12; parent_folder = some "photos" }
    ∷ []

abbrev store : Store
store = record { links = []; events = []; next_id = 1; now = 5000; random = 3 }

abbrev after : Store
after = (create_send_links validate seal none items (some "a@example.org") (some "secret") store).1

abbrev link : SendLink
link = new_link validate seal none items (some "a@example.org") (some 103) 1 5000

creates :
    create_send_links validate seal none items (some "a@example.org") (some "secret") store
    ≡ (ok link, after)
unfolding create_send_links hash_password deterministic_encryption create_send_link_with_items
    is_blank is_space ◌>>=◌
creates = refl

unlock_link-refuses_example :
    (unlock_link validate seal link (some "secret") after).0 ≡ err (forbidden "Invalid password")
unfolding create_send_links hash_password deterministic_encryption create_send_link_with_items
    is_blank is_space is_protected ◌>>=◌
unlock_link-refuses_example =
    unlock_link-refuses validate seal none items (some "a@example.org") "secret" store after
      seal-IsVectored refl creates refl (λ e. ground arith)

-- The event has the size of the files at the top, and the number of all files.
announced : after.events ≡ record { link = 1; size = 30; total_files = 2 } ∷ []
unfolding create_send_links hash_password deterministic_encryption create_send_link_with_items
    is_blank is_space ◌>>=◌
announced = refl

viewed : (get_by_id validate seal 1 after).0 ≡ ok (record link { views = 1 })
unfolding create_send_links hash_password deterministic_encryption create_send_link_with_items
    is_blank is_space get_by_id update_link add_view ◌>>=◌
viewed = refl

expired :
    get_by_id validate seal 1 (record after { now = 1300000000 })
    ≡ (err (not_found "SendLink expired"), record after { now = 1300000000 })
unfolding create_send_links hash_password deterministic_encryption create_send_link_with_items
    is_blank is_space get_by_id update_link ◌>>=◌
expired = refl
