-- ===== src/Sentinel/Live.antt =====
-- internal/sentinel/manager.go: a set of addresses, and the replica table of a sentinel against the live
-- pods.
use velkir.Prelude.{Bool, true, false, ◌||◌, List, [], ◌∷◌, Option, String, str_eq, if◌then◌else◌}

unfoldable pub is_live : List String → String → Bool
is_live [] ip = false
is_live (x ∷ xs) ip = str_eq x ip || is_live xs ip

-- A sentinel's table of replicas: their addresses, or `none` for an error.
abbrev pub ReplicaTable : Type 0
ReplicaTable = Option (List String)

unfoldable pub replica_table_doomed : List String → List String → Bool
replica_table_doomed live [] = true
replica_table_doomed live (ip ∷ ips) =
    if is_live live ip then false else replica_table_doomed live ips
