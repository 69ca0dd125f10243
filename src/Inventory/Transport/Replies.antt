-- ===== src/Inventory/Transport/Replies.antt =====
-- The reply to a request for one part.
use text.Mathlib.Text.{◌==◌ as str_eq}
use rocket_maintenance.Common.{String, Result, ok, err, Fault, failed, panicked, if◌then◌else◌, is}
use rocket_maintenance.Proto.{Status, Code, not_found, internal, invalid_argument as bad_argument}
use rocket_maintenance.Inventory.Model.{
  Part, InventoryError, inventory_sentinels, part_not_found, invalid_argument,
}
use rocket_maintenance.Inventory.Converter.{nil_pointer}
use rocket_maintenance.Inventory.Transport.Answers.{lacks_time}

-- The status of an error of the repository, seen through the service.
abbrev pub status_of : InventoryError → Code
status_of e =
    if is e invalid_argument
    then bad_argument
    else if is e part_not_found
    then not_found
    else internal

-- What a caller gets: an answer, a code, or a panic.
pub data Reply : Type 0 where
  answered : Reply
  refused : Code → Reply
  crashed : String → Reply

abbrev pub reply_of : {A : Type 0} → Result (Fault Status) A → Reply
reply_of (ok _) = answered
reply_of (err (failed s)) = refused s.code
reply_of (err (panicked r)) = crashed r

-- The reply to an id that is not blank, by what the repository gives for the trimmed id.
abbrev pub expected : Result InventoryError Part → Reply
expected (ok p) = if lacks_time p then crashed nil_pointer else answered
expected (err e) = refused (status_of e)
