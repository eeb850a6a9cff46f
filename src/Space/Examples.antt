-- ===== src/Space/Examples.antt =====
-- Runs of the Space service, and its theorems at concrete tables.
use recall_ai.Base.{
  ℕ, ◌+◌, ◌≤◌, ◌<◌, String, Bool, true, false, not, Option, none, some, List, [], ◌∷◌, ◌≡◌, ◌≢◌,
  refl, arith, ◌==◌, ◌&&◌, ◌||◌, leb, is_some, if◌then◌else◌, length, find_first, save, order_desc,
  select_where, update_where, delete_where, Result, ok, err, All, Distinct,
}
use recall_ai.Space.Row.{viewer, editor, owner, private, Space, SpaceInvite, VaultItem, Db}
use recall_ai.Space.Repository.{
  get_for_viewer, get_live, role_or_viewer, get_invite_by_hash, space_key, invite_key,
}
use recall_ai.Space.Service.{
  not_found, SpaceChanges, update, delete, add_items, remove_item, remove_member, create, summary,
}
use recall_ai.Space.Invites.{create_invite, accept_invite, spent, commit_or_rollback}
use recall_ai.Space.Access.{is_ok, is_owner, is_curator, outsider_finds_nothing, permissions}
use recall_ai.Space.Joining.{IsOpen, accept_once, accept_grants, deleted_space_keeps_token}
use recall_ai.Space.Reach.{IsContributed}
use recall_ai.Space.Privilege.{
  Reaches, fresh, then_request, creates, invites, accepts, owner_is_creator, items_are_contributed,
}

abbrev memories : List VaultItem
memories =
    record { id = 7; user_id = 1; deleted_at = none }
    ∷ record { id = 8; user_id = 2; deleted_at = none }
    ∷ []

abbrev nothing : Db
nothing = record { spaces = []; items = []; members = []; invites = []; vault = memories }

abbrev draft : Space
draft = record {
  id = 3;
  user_id = 1;
  name = "Trips";
  slug = "";
  description = none;
  visibility = private;
  icon = none;
  emoji = none;
  accent = none;
  pinned = false;
  updated_at = 0;
  deleted_at = none;
}

abbrev trips : Space
trips = record draft { slug = "trips" }

-- User 1 has made a Space out of their own memory; the other memory in the request was skipped.
abbrev created : Db
created = record nothing {
  spaces = trips ∷ [];
  items = record { space_id = 3; vault_item_id = 7; added_by = 1; added_at = 10 } ∷ [];
}

creation :
    create 10 draft "trips" [] (7 ∷ 8 ∷ 7 ∷ []) nothing
    ≡ some (trips, record { added = 1; skipped = 1 }, created)
unfolding create recall_ai.Space.Repository.slug_exists find_first recall_ai.Base.take_chars
    select_where save recall_ai.Space.Repository.vault_get
creation = refl

abbrev invitation : SpaceInvite
invitation = record {
  id = 20;
  space_id = 3;
  role = "editor";
  token_hash = "digest";
  created_by = 1;
  expires_at = 100;
  accepted_at = none;
  accepted_by = none;
}

abbrev invited : Db
invited = record created { invites = invitation ∷ [] }

inviting : create_invite 20 "digest" 100 3 1 editor created ≡ ok invited
unfolding create_invite get_for_viewer find_first save
inviting = refl

abbrev shared : Db
shared = commit_or_rollback invited (accept_invite 50 2 "digest" invited)

shared_reached : Reaches memories shared
shared_reached =
    then_request
      (then_request
        (then_request fresh (
          creates 10 draft "trips" [] (7 ∷ 8 ∷ 7 ∷ []) trips (record { added = 1; skipped = 1 })
            nothing created creation))
        (invites 20 100 3 1 "digest" editor created invited inviting))
      (accepts 50 2 "digest" invited)

owner_of_shared : get_for_viewer 3 1 shared ≡ some (trips, owner)
unfolding get_for_viewer accept_invite commit_or_rollback find_first
owner_of_shared = refl

owner_is_creator_example : trips.user_id ≡ 1
owner_is_creator_example = owner_is_creator 3 1 shared_reached owner_of_shared

items_are_contributed_example : All (IsContributed memories) shared.items
items_are_contributed_example = items_are_contributed shared_reached

abbrev no_changes : SpaceChanges
no_changes = record {
  name = none;
  description = none;
  visibility = none;
  icon = none;
  emoji = none;
  accent = none;
  pinned = none;
}

not_theirs : (s : Space) → get_live 3 shared ≡ some s → s.user_id ≢ 9
unfolding get_live accept_invite commit_or_rollback find_first
not_theirs s e same = absurd (ground (arith, e, same))

not_member : All (λ m. (m.space_id == 3 && m.user_id == 9) ≡ false) shared.members
unfolding accept_invite commit_or_rollback find_first
not_member = (refl, tt)

outsider_finds_nothing_example :
    (summary 3 9 shared ≡ err not_found)
    × (update 60 no_changes 3 9 shared ≡ err not_found)
    × (delete 60 3 9 shared ≡ err not_found)
    × (add_items 60 3 9 (7 ∷ []) shared ≡ err not_found)
    × (remove_item 3 9 7 shared ≡ err not_found)
    × (remove_member 3 9 9 shared ≡ err not_found)
    × (create_invite 21 "other" 100 3 9 viewer shared ≡ err not_found)
outsider_finds_nothing_example =
    outsider_finds_nothing 60 3 9 shared no_changes (7 ∷ []) 7 9 21 100 "other" viewer not_theirs
      not_member

guest : get_for_viewer 3 2 shared ≡ some (trips, editor)
unfolding get_for_viewer accept_invite commit_or_rollback find_first role_or_viewer
guest = refl

abbrev publishing : SpaceChanges
publishing = record no_changes { visibility = some private }

permissions_example :
    (is_ok (update 60 publishing 3 2 shared)
      ≡ (if is_some publishing.visibility then is_owner editor else is_curator editor))
    × (is_ok (delete 60 3 2 shared) ≡ is_owner editor)
    × (is_ok (add_items 60 3 2 (8 ∷ []) shared) ≡ is_curator editor)
    × (is_ok (remove_item 3 2 7 shared) ≡ is_curator editor)
    × (is_ok (create_invite 21 "other" 100 3 2 viewer shared)
        ≡ (is_owner editor && not (is_owner viewer)))
    × (is_ok (remove_member 3 2 2 shared)
        ≡ ((2 == 2 || is_owner editor) && not (2 == trips.user_id)))
permissions_example =
    permissions 60 3 2 shared trips editor publishing (8 ∷ []) 7 2 21 100 "other" viewer guest

abbrev departed : Db
departed = record shared { members = [] }

leaving : remove_member 3 2 2 shared ≡ ok (true, departed)
unfolding remove_member accept_invite commit_or_rollback get_for_viewer find_first delete_where
leaving = refl

abbrev closed : Db
closed = record invited { spaces = record trips { deleted_at = some 60 } ∷ [] }

closing : delete 60 3 1 invited ≡ ok closed
unfolding delete get_for_viewer find_first save
closing = refl

IsOpen-invitation : IsOpen 50 "digest" invited invitation
unfolding get_invite_by_hash find_first
IsOpen-invitation = record { presented = refl; unspent = refl; unexpired = omega arith }

invited_live : get_live 3 invited ≡ some trips
unfolding get_live find_first
invited_live = refl

accept_once_example :
    accept_invite 55 5 "digest" (accept_invite 50 2 "digest" invited).1
    ≡ (err not_found, (accept_invite 50 2 "digest" invited).1)
accept_once_example =
    accept_once 50 2 "digest" invited invitation trips IsOpen-invitation invited_live (tt, tt) 55 5

accept_grants_example :
    get_for_viewer 3 2 (accept_invite 50 2 "digest" invited).1
    ≡ some (trips, if trips.user_id == 2 then owner else role_or_viewer "editor")
accept_grants_example =
    accept_grants 50 2 "digest" invited invitation trips IsOpen-invitation invited_live (tt, tt)

IsOpen-at_closed : IsOpen 70 "digest" closed invitation
unfolding get_invite_by_hash find_first
IsOpen-at_closed = record { presented = refl; unspent = refl; unexpired = omega arith }

closed_gone : get_live 3 closed ≡ none
unfolding get_live find_first
closed_gone = refl

deleted_space_keeps_token_example :
    ((accept_invite 70 2 "digest" closed).0 ≡ err not_found)
    × (get_invite_by_hash "digest" (accept_invite 70 2 "digest" closed).1
        ≡ some (spent 70 2 invitation))
    × (commit_or_rollback closed (accept_invite 70 2 "digest" closed) ≡ closed)
    × (get_invite_by_hash "digest" (commit_or_rollback closed (accept_invite 70 2 "digest" closed))
        ≡ some invitation)
deleted_space_keeps_token_example =
    deleted_space_keeps_token 70 2 "digest" closed invitation IsOpen-at_closed (tt, tt) closed_gone
