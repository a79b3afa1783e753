-- ===== src/Send.antt =====
-- Send links: src/modules/send (send.usecase.ts, send-link.domain.ts, send-link.repository.ts).
mod Tests
pub mod Passwords
use text.Mathlib.Text.{◌==◌ as str_eq}
use drive_server_wip.Prelude.{
  ℕ, suc, ◌+◌, ◌-◌, ◌*◌, String, Bool, true, false, ◌&&◌, ◌||◌, not, Option, none, some, List, [],
  ◌∷◌, ◌==◌, ltb, if◌then◌else◌, is_some, map,
}
use drive_server_wip.Prelude.Table.{find_one, update, create, count}
use drive_server_wip.Prelude.Outcome.{
  Action, ok, bad_request, not_found, forbidden, pure, gets, or_throw, throw_if, modify, ◌>>=◌,
  ◌>>◌,
}
use drive_server_wip.Folders.Names.{codes, is_blank}

-- Identifiers are only compared.
abbrev pub LinkId : Type 0
LinkId = ℕ

pub record SendLinkItem : Type 0 where
  pub id : ℕ
  pub type : String
  pub link_id : LinkId
  pub size : ℕ
  pub parent_folder : Option String

-- Times are milliseconds.
pub record SendLink : Type 0 where
  pub id : LinkId
  pub views : ℕ
  pub user : Option ℕ
  pub items : List SendLinkItem
  pub sender : Option String
  pub created_at : ℕ
  pub updated_at : ℕ
  pub expiration_at : ℕ
  pub hashed_password : Option ℕ

pub record SendLinkCreatedEvent : Type 0 where
  pub link : LinkId
  pub size : ℕ
  pub total_files : ℕ

-- `random` is what the next random bytes are.
pub record Store : Type 0 where
  pub links : List SendLink
  pub events : List SendLinkCreatedEvent
  pub next_id : LinkId
  pub now : ℕ
  pub random : ℕ

abbrev pub Handler : Type 0 → Type 0
Handler A = Action Store A

-- `SendLink` (send-link.domain.ts)
unfoldable pub add_view : SendLink → SendLink
add_view link = record link { views = suc link.views }

unfoldable pub is_protected : SendLink → Bool
is_protected link = is_some link.hashed_password

-- The items of a request
pub record SendLinkItemDto : Type 0 where
  pub id : ℕ
  pub type : String
  pub size : ℕ
  pub parent_folder : Option String

abbrev pub to_item : LinkId → SendLinkItemDto → SendLinkItem
to_item link_id item = record {
  id = item.id;
  type = item.type;
  link_id = link_id;
  size = item.size;
  parent_folder = item.parent_folder;
}

-- `!item.parent_folder || String(item.parent_folder).trim().length === 0`
abbrev pub is_top_level : Option String → Bool
is_top_level none = true
is_top_level (some folder) = is_blank (codes folder)

abbrev pub total_size : List SendLinkItemDto → ℕ
total_size [] = 0
total_size (item ∷ items) =
    (if is_top_level item.parent_folder then item.size else 0) + total_size items

abbrev pub total_files : List SendLinkItemDto → ℕ
total_files [] = 0
total_files (item ∷ items) = (if str_eq item.type "file" then 1 else 0) + total_files items

abbrev pub day : ℕ
day = 86400000

-- `findById`, `update`, `createSendLinkWithItems` and `countBySendersToday`
abbrev pub find_link : LinkId → Store → Option SendLink
find_link id s = find_one (λ l. l.id == id) s.links

unfoldable pub update_link : SendLink → Handler (Unit {0})
update_link link = do
  found ← gets (find_link link.id)
  row ← or_throw found (not_found "sendLink not found")
  modify (λ s. record s { links = update (λ l. l.id == link.id) (λ l. link) s.links })

unfoldable pub create_send_link_with_items : SendLink → Handler (Unit {0})
create_send_link_with_items link = modify (λ s. record s { links = create link s.links })

abbrev pub count_by_senders_today : Store → ℕ
count_by_senders_today s = count (λ l. is_some l.sender && ltb (s.now - day) l.created_at) s.links

abbrev pub is_expired : SendLink → Store → Bool
is_expired link s = ltb link.expiration_at s.now

-- An event, where fewer links than the daily limit have been created
abbrev pub announce : LinkId → List SendLinkItemDto → Store → Store
announce id items s =
    let event : SendLinkCreatedEvent = record {
      link = id;
      size = total_size items;
      total_files = total_files items;
    } in
    record s {
      events = if ltb (count_by_senders_today s) 1000 then create event s.events else s.events;
    }

abbrev pub has_password : Option String → Bool
has_password none = false
has_password (some password) = not (str_eq password "")

-- `validate` is the library's test of identifiers, and `seal` its cipher, from the vector and the text; it
-- fails with `none`, which the code gives on as null.
module _ (validate : LinkId → Bool) (seal : ℕ → String → Option ℕ) where
  -- `deterministicEncryption`, which draws its vector at random
  unfoldable pub deterministic_encryption : String → Handler (Option ℕ)
  deterministic_encryption content s =
      (ok (seal s.random content), record s { random = suc s.random })

  unfoldable pub get_by_id : LinkId → Handler SendLink
  get_by_id id = do
    throw_if (not (validate id)) (bad_request "id is not in uuid format")
    found ← gets (find_link id)
    send_link ← or_throw found (not_found "SendLink not found")
    expired ← gets (is_expired send_link)
    throw_if expired (not_found "SendLink expired")
    now ← gets (λ s. s.now)
    update_link (record (add_view send_link) { updated_at = now })
    again ← gets (find_link id)
    or_throw again (not_found "SendLink not found")

  -- `plainPassword ? deterministicEncryption(plainPassword) : null`
  unfoldable pub hash_password : Option String → Handler (Option ℕ)
  hash_password none = pure none
  hash_password (some password) =
      let encrypted = deterministic_encryption password in
      if has_password (some password) then encrypted else pure none

  abbrev pub new_link :
      Option ℕ → List SendLinkItemDto → Option String → Option ℕ → LinkId → ℕ → SendLink
  new_link user items sender hashed_password id now = record {
    id = id;
    views = 0;
    user = user;
    items = map (to_item id) items;
    sender = sender;
    created_at = now;
    updated_at = now;
    expiration_at = now + 15 * day;
    hashed_password = hashed_password;
  }

  unfoldable pub create_send_links :
      Option ℕ → List SendLinkItemDto → Option String → Option String → Handler SendLink
  create_send_links user items sender plain_password = do
    hashed_password ← hash_password plain_password
    send_link ← gets (λ s. new_link user items sender hashed_password s.next_id s.now)
    modify (λ s. record s { next_id = suc s.next_id })
    create_send_link_with_items send_link
    modify (announce send_link.id items)
    pure send_link

  -- Two texts, or nulls, that are not the same
  abbrev pub differ : Option ℕ → Option ℕ → Bool
  differ none none = false
  differ none (some b) = true
  differ (some a) none = true
  differ (some a) (some b) = not (a == b)

  -- The part of `unlockLink` with a password
  unfoldable pub check_password : SendLink → String → Handler (Unit {0})
  check_password send_link password = do
    hashed_password ← deterministic_encryption password
    throw_if (differ send_link.hashed_password hashed_password) (forbidden "Invalid password")

  unfoldable pub unlock_link : SendLink → Option String → Handler (Unit {0})
  unlock_link send_link none =
      throw_if (is_protected send_link) (forbidden "Send link protected by password")
  unlock_link send_link (some password) =
      let missing = throw_if true (forbidden "Send link protected by password") in
      let check = check_password send_link password in
      if is_protected send_link
      then if has_password (some password) then check else missing
      else pure tt
