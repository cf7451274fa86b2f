-- ===== src/Core/Tests.antt =====
-- An act that needs no code, on a counter.
use nodary.Prelude.{ℕ, ◌+◌, String, ◌≡◌, refl, true, false, Option, none, some, List, [], ◌∷◌, ◌⊎◌}
use nodary.Attest.{Profile, needs_totp, require, bind}
use nodary.Audit.Record.{validate, compute, is_outcome, half_set, hex_hash}
use nodary.Audit.Database.{empty_database, append_tx, install_row, next_record, tail, insert_row}
use nodary.Audit.Log.{
  Cause, mutation, World, Acted, emit, emit_to, forget, remembers, blocked, stored_row, encodable,
  entry_for, record_only, commit_with, act,
}
use nodary.Audit.Log.Recorded.{Untouched, Refusal, Appends}
use nodary.Audit.Log.Tests.{valid_same, environment, delivery}
use nodary.Audit.Tests.{digest, first, one_record}
use nodary.Core.{
  Site, Request, applied, partly, Change, Note, Failure, fault, acted, is_local, ceremony_of, touch,
  notes_of, audit_request, bind_and_apply, mutate, act_approved, act_core,
}
use nodary.Core.Applied.{Passes, act_core-acted}
use nodary.Core.Applied.Mutation.{Applies}

abbrev hmac : List ℕ → List ℕ → List ℕ
hmac seed message = []

abbrev hash : ℕ → Option String
hash n = some "abcd"

abbrev no_detail : List Note → Option (Cause (Failure ℕ)) → String
no_detail notes cause = "{}"

abbrev site : Site ℕ
site = record {
  account = record { active = true; seed = none; last_step = none };
  tokens = [];
  state = 7;
}

abbrev world : World (Site ℕ)
world = record { app = site; db = empty_database; failing = [] }

abbrev profile : Profile
profile = record {
  require_totp = true;
  require_justification = false;
  min_justification_length = 0;
  allow_unattended_tokens = false;
  token_max_ttl_days = 90;
}

abbrev increase : Change ℕ ℕ ℕ
increase = record {
  action = "user.add";
  target = none;
  render = λ n. some (n + 1);
  apply = λ change n. applied change;
}

abbrev request : Request
request = record {
  principal = record {
    actor = record { id = "root"; method = "local"; session = "" };
    token = "";
    unattended = false;
  };
  justification = "";
  totp_code = "";
  interactive = true;
  intent = "abcd";
  dry_run = false;
  request_id = "";
}

abbrev done : Acted (Site ℕ) (Failure ℕ)
done = record {
  world = record {
    app = record site { state = 8 };
    db = record one_record { audit = record first { intent_hash = "abcd" } ∷ [] };
    failing = [];
  };
  stored = some (record first { intent_hash = "abcd" });
  error = none;
}

act_core_once :
    act_core hmac hash valid_same digest no_detail delivery environment 7 world profile true 5000000
      request increase
    ≡ acted 8 "abcd" done
unfolding act_core act_approved require needs_totp ceremony_of is_local act mutate bind_and_apply
    bind touch notes_of audit_request blocked commit_with record_only stored_row entry_for encodable
    emit emit_to forget remembers append_tx validate compute is_outcome half_set hex_hash
    install_row next_record tail insert_row
act_core_once = refl

act_core-acted_example :
    Passes hash profile 7 request increase 8 "abcd"
    × (Untouched valid_same digest no_detail [] world done
        ⊎ Refusal valid_same digest no_detail [] environment world
            (audit_request request increase "abcd")
            done
        ⊎ (Applies hmac hash profile 5000000 request increase "abcd" site
              (record site { state = 8 })
              (applied 8)
            × Appends valid_same digest no_detail [] environment empty_database
                (audit_request request increase "abcd")
                "success"
                done
            × (done.error ≡ none))
        ⊎ ((f : ℕ) × Applies hmac hash profile 5000000 request increase "abcd" site
              (record site { state = 8 })
              (partly 8 f)
            × Appends valid_same digest no_detail [] environment empty_database
                (audit_request request increase "abcd")
                "partial"
                done
            × (done.error ≡ some (mutation (fault f)))))
act_core-acted_example =
    act_core-acted hmac hash valid_same digest no_detail delivery environment 7 world profile true
      5000000 request increase 8 "abcd" done act_core_once
