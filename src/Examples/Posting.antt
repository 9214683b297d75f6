-- ===== src/Examples/Posting.antt =====
-- The repository of challenges on one challenge.
use xcf_concordium_facilitat.Base.{◌≡◌, ◌≢◌, refl, none, some, [], ◌∷◌, Text, codes, Value}
use xcf_concordium_facilitat.Base.Js.{undefined, str}
use xcf_concordium_facilitat.Challenges.{
  Json, Row, NewChallenge, Tables, get_status, new_row, created, same_payload, conflict,
  upsert_challenge,
}
use xcf_concordium_facilitat.Challenges.Upserts.{
  ReadsBack, upsert_challenge_idempotent, upsert_challenge-reordered,
}

abbrev printed : Value → Text
unfolding codes
printed (str s) = s
printed v = codes "{}"

-- JSON that comes back as it was written
abbrev faithful : Json
faithful = record { stringify = printed; stored = λ v. v; date = λ s. some 5000 }

-- JSON that comes back in another order
abbrev reordering : Json
unfolding codes
reordering = record {
  stringify = printed;
  stored = λ v. str (codes "reordered");
  date = λ s. some 5000;
}

abbrev posted : NewChallenge
unfolding codes
posted = record {
  merchant_id = codes "shop";
  nonce = codes "n1";
  network = codes "concordium:testnet";
  asset = str (codes "asset");
  amount = codes "1.5";
  pay_to = codes "addr";
  expiry = codes "soon";
  policy = undefined;
  metadata = undefined;
  status = none;
}

reads_back : ReadsBack faithful posted
unfolding codes posted
reads_back = record { asset = refl; policy = refl; metadata = refl }

upsert_challenge_idempotent_example :
    ((upsert_challenge faithful posted 1 []).0 ≡ created (new_row faithful posted 5000 1))
    × (upsert_challenge faithful posted 2 (upsert_challenge faithful posted 1 []).1 ≡ (
      same_payload (new_row faithful posted 5000 1),
      (upsert_challenge faithful posted 1 []).1,
    ))
unfolding get_status
upsert_challenge_idempotent_example =
    upsert_challenge_idempotent faithful posted 1 2 5000 [] refl refl reads_back

other_text :
    reordering.stringify (reordering.stored posted.asset) ≢ reordering.stringify posted.asset
unfolding codes
other_text h = cc

upsert_challenge-reordered_example :
    (upsert_challenge reordering posted 2 (upsert_challenge reordering posted 1 []).1).0 ≡ conflict
unfolding reordering get_status
upsert_challenge-reordered_example =
    upsert_challenge-reordered reordering posted 1 2 5000 [] refl refl other_text

abbrev stored_row : Row
stored_row = new_row faithful posted 5000 1

abbrev tables : Tables
tables = record { challenges = stored_row ∷ []; receipts = [] }
