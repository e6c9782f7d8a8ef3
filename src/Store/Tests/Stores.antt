-- ===== src/Store/Tests/Stores.antt =====
-- The requests and the broadcasts of a user, with their theorems, at concrete buckets.
use bmagent.Base.{
  ◌≡◌, ◌⊎◌, refl, Option, none, some, [], ◌∷◌, if◌then◌else◌, Text, codes, text_eq, arith,
}
use bmagent.Store.Bucket.{entry}
use bmagent.Store.Folder.{database, not_found, invalid_id, done, failed, panicked}
use bmagent.Store.Requests.{new_request}
use bmagent.Store.Requests.Counts.{IsCounted, request_at, more, new_request-more}
use bmagent.Store.Broadcasts.{Broadcasts, forget, remove_address}
use bmagent.Store.Broadcasts.Removal.{remove_address-kept}
use bmagent.Store.Tests.Listed.{listed, listed-IsBolt}

abbrev no_entries : listed.Bucket
no_entries = ([], tt)

-- Times are their own bytes.
abbrev bytes : Text → Option Text
bytes t = some t

empty-IsCounted : IsCounted listed bytes listed-IsBolt no_entries
unfolding entry
empty-IsCounted addr v e = absurd (ground arith)

new_request-more_example :
    let (b', reply) = new_request listed bytes (some (5 ∷ [])) (codes "BM-a") no_entries in
    ((reply ≡ failed database) × (b' ≡ no_entries))
    ⊎ (IsCounted listed bytes listed-IsBolt b'
        × (reply
            ≡ done (
                more listed bytes listed-IsBolt
                  (request_at listed bytes listed-IsBolt (codes "BM-a") no_entries)))
        × ((other : Text)
            → request_at listed bytes listed-IsBolt other b' ≡ (
                if text_eq (codes "BM-a") other
                then some (
                  more listed bytes listed-IsBolt
                      (request_at listed bytes listed-IsBolt (codes "BM-a") no_entries),
                  5 ∷ [],
                )
                else request_at listed bytes listed-IsBolt other no_entries)))
new_request-more_example =
    new_request-more listed bytes listed-IsBolt (codes "BM-a") (5 ∷ []) no_entries empty-IsCounted

-- An address is known, and there is no bucket outside.
abbrev heard : Broadcasts listed bytes (λ t. t)
heard = record {
  bucket = ((codes "BM-a", some []) ∷ [], (tt, tt));
  root = none;
  addrs = codes "BM-a" ∷ [];
}

remove_address-kept_example :
    let (s', reply) = remove_address listed bytes (λ t. t) (codes "BM-a") heard in
    (s'.bucket ≡ heard.bucket)
    × ((s' ≡ heard)
          × ((reply ≡ failed invalid_id)
              ⊎ ((reply ≡ failed not_found)
                  ⊎ ((reply ≡ failed database) ⊎ ((reply ≡ panicked) × (heard.root ≡ none)))))
        ⊎ ((r : listed.Bucket) × (addr : Text) × (heard.root ≡ some r)
            × (reply ≡ done tt)
            × (s'.addrs ≡ forget listed bytes (λ t. t) addr heard.addrs)))
remove_address-kept_example = remove_address-kept listed bytes (λ t. t) (codes "BM-a") heard

-- The removal panics.
remove_panics : (remove_address listed bytes (λ t. t) (codes "BM-a") heard).1 ≡ panicked
unfolding remove_address entry text_eq
remove_panics = refl
