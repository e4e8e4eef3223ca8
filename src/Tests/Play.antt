-- ===== src/Tests/Play.antt =====
-- Plays of a journal.
use tless.Prelude.{codes, false, none, some, [], ◌∷◌}
use tless.Objstore.{Cloud}
use tless.Objstore.Memory.{memory}
use tless.Database.{quiet, Db}
use tless.Backup.Entry.{State}
use tless.Backup.Play.{Round, Job}
use tless.Backup.Play.Progress.{Progress}
use tless.Backup.Replay.{Names}
use tless.Tests.Data.{tables, row_running, hashes, key, nonce}
use tless.Tests.Reliable.{os, draws}

abbrev cloud : Cloud (memory hashes)
cloud = record {
  server = record { objects = []; outages = 0 };
  upload_bytes = 0;
  download_bytes = 0;
}

-- The packer holds the running task.
abbrev state : State (memory hashes)
state = record {
  packer = record {
    items =
        record {
          rel_path = codes "b";
          offset = 0;
          len = 2;
          bjt = record { id = 2; dir_ent_id = 8; change_type = row_running.change_type };
        }
        ∷ [];
    plaintext_chunk_buf = codes "hi";
    pos_in_plaintext_chunk = 2;
    cnt_bytes = some 2;
  };
  world = record {
    db = quiet tables;
    cloud = cloud;
    total_cnt_journal = 3;
    finished_count_journal = 1;
  };
  cnt_files = some 2;
}

abbrev progress : Progress
progress = record { waiting = 1; held = 1; finished = 1 }

abbrev round : Round
round = record { is_canceled = false; os = os; draws = draws; index_nonce = some nonce }

abbrev job : Job
job = record {
  key = key;
  backup_dir_path = codes "/home";
  backup_dir_name = codes "home";
  snapshot_name = codes "s";
  parsed_time = some 100;
  prev_snapshot = none;
}

-- A cancelation that leaves all as it is.
abbrev cancel : Db × Cloud (memory hashes) → Db × Cloud (memory hashes)
cancel r = r

abbrev names : Names
names = record { base = λ s. s; parse_time = λ s. some 100; format_time = λ n. codes "s" }
