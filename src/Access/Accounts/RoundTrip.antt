-- ===== src/Access/Accounts/RoundTrip.antt =====
-- Account types through their text and through JSON.
use media_hub_oss.Prelude.{ℕ, ◌≡◌, arith, ltb, if◌then◌else◌, ok}
use media_hub_oss.Prelude.Text.{lower_code}
use media_hub_oss.Access.Accounts.{
  account_type_string, parse_account_type, account_type_to_json, account_type_from_json,
}

-- Every byte comes back from its text and from its JSON as the same account type, if it is one of
-- the three, and as a local account otherwise.
pub account_type_round_trip :
    (a : ℕ)
    → (parse_account_type (account_type_string a) ≡ ok (if ltb a 3 then a else 0))
      × (account_type_from_json (account_type_to_json a) ≡ ok (if ltb a 3 then a else 0))
unfolding account_type_string parse_account_type account_type_to_json account_type_from_json
    lower_code
account_type_round_trip a = ground (arith)
