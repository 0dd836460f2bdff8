-- ===== src/Acp/Samples.antt =====
-- One registered workspace with one idle session, for the tests.
use leave_cli.Prelude.{ℕ, true, false, some, List, [], ◌∷◌}
use leave_cli.Prelude.Text.{Text, codes}
use leave_cli.Store.{Tables}
use leave_cli.Acp.Events.{Serde, Stamp}

abbrev pub plain_serde : Serde (List ℕ)
plain_serde = record {
  text = λ t. t;
  number = λ n. n ∷ [];
  boolean = λ b. [];
  null = [];
  object = λ fields. [];
  to_vec = λ v. some v;
  from_slice = λ bytes. some bytes;
}

abbrev pub w_id : Text
w_id = b'w' ∷ []

abbrev pub s_id : Text
s_id = b's' ∷ []

abbrev pub one_session : Tables
one_session = record {
  workspaces =
      record {
        id = w_id;
        name = [];
        canonical_path = b'/' ∷ [];
        expose_history = true;
        expose_project_customization = true;
        expose_global_customization = false;
      }
      ∷ [];
  claims = [];
  last_sequence = 0;
  events = [];
  sessions =
      record {
        session_id = s_id;
        workspace_id = w_id;
        title = [];
        state = codes "idle";
        created_at = 0;
        updated_at = 0;
      }
      ∷ [];
}

abbrev pub stamp_of : ℕ → Stamp
stamp_of n = record {
  event_id = n ∷ [];
  now = n;
  updates = true;
  claims = true;
  appends = true;
  saves = true;
  finds = true;
  responds = true;
}
