-- ===== src/Examples/Restarts.antt =====
-- A restart with an entry in flight, and a session that ends.
use media_hub_oss.Prelude.{refl, arith, true, false, [], ◌∷◌}
use media_hub_oss.Prelude.Text.{codes}
use media_hub_oss.Repository.Table.{find_row}
use media_hub_oss.Repository.Tokens.{Tokens, TokenEnv, find_token}
use media_hub_oss.Repository.Tokens.Sessions.{
  Distinct, delete_all_for_user, Refines, tokens_after-Refines,
}
use media_hub_oss.Storage.{file_size}
use media_hub_oss.Recovery.{RecoveryEvents, entry_status_correction}
use media_hub_oss.Recovery.Ready.{ReadyHasFile, entry_status_correction-ReadyHasFile}
use media_hub_oss.Examples.{works, db_id, vault, third_broken}

abbrev restart : RecoveryEvents
restart = record {
  dry_run = false;
  stats_fails = false;
  scan = works;
  mark_ready = works;
  delete_zombies = works;
  delete_stuck = third_broken;
  stat_fails = λ id. false;
}

vault-ReadyHasFile : ReadyHasFile vault
unfolding find_row file_size
vault-ReadyHasFile j h = ground (arith, h)

entry_status_correction-ReadyHasFile_example :
    ReadyHasFile (entry_status_correction restart db_id vault).1
entry_status_correction-ReadyHasFile_example =
    entry_status_correction-ReadyHasFile restart db_id vault vault-ReadyHasFile

abbrev tokens : Tokens
tokens =
    record { user_id = codes "U1"; token_hash = codes "h1"; expiry = 5 }
    ∷ record { user_id = codes "U2"; token_hash = codes "h2"; expiry = 9 }
    ∷ []

abbrev clock : TokenEnv
clock = record {
  now = 6_000_000;
  exec_fails = false;
  result_fails = false;
  query_fails = false;
  user_exists = λ id. true;
}

tokens-Distinct : Distinct tokens
unfolding find_token
tokens-Distinct = (refl, (refl, tt))

tokens_after-Refines_example : Refines clock (delete_all_for_user (codes "U1")) tokens
tokens_after-Refines_example =
    tokens_after-Refines clock (delete_all_for_user (codes "U1")) tokens tokens-Distinct
