-- ===== src/Kvraft/Machine.antt =====
-- src/kvraft1/server.go, StartKVServer: the server as the state machine that it hands to MakeRSM.
use raft_sharded_kv.Kvraft.Server.{KvServer, Request, Reply, Codec, do_op, snapshot, restore}
use raft_sharded_kv.Rsm.Server.{StateMachine}

abbrev pub kv_machine : Codec → StateMachine
kv_machine c = record {
  State = KvServer;
  Bytes = c.Bytes;
  is_empty = c.is_empty;
  Req = Request;
  Reply = Reply;
  do_op = do_op;
  snapshot = snapshot c;
  restore = restore c;
}
