-- ===== src/Proxy/Samples.antt =====
-- A sample handler and what it uses, where no upstream answers.
use rclone_vfs.Prelude.{ℕ, true, false, none, List, [], ◌∷◌}
use rclone_vfs.Prelude.{pos}
use rclone_vfs.Engine.Samples.{calm, unseen}
use rclone_vfs.Proxy.Path.{KeyOptions}
use rclone_vfs.Proxy.Serve.{Handler, HandlerOptions, Env}

-- A hash of one digit.
abbrev pub digit : List ℕ → List ℕ
digit [] = b'0' ∷ []
digit (c ∷ s) = b'1' ∷ []

abbrev pub by_path : KeyOptions
by_path = record { strip_query = false; strip_domain = true; shard_level = pos 1 }

-- A handler without a request yet, and what it uses where no upstream answers.
abbrev pub quiet_handler : Handler
quiet_handler = record {
  engine = unseen;
  entries = [];
  metrics = record {
    requests = 0;
    hits = 0;
    misses = 0;
    bytes_served = pos 0;
    bytes_from_upstream = pos 0;
    purges = 0;
  };
}

abbrev pub plain_options : HandlerOptions
plain_options = record { key = by_path; passthrough = false }

abbrev pub env : Env
env = record {
  md5 = digit;
  clean = λ path. 3;
  parse_time = λ s. none;
  client = λ request. none;
  world = calm;
  now = pos 9;
}
