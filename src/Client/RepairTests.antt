-- ===== src/Client/RepairTests.antt =====
-- A repair by crates/holofs-client/src/client.rs over a small network.
use holofs.Prelude.{
  ℕ, zero, suc, ◌≡◌, refl, sym, ◌∙◌, subst, some_cancel, Bool, true, false, List, [], ◌∷◌, none,
  All, get_or, list_eq, replicate, arith,
}
use holofs.Shard.{Shard}
use holofs.Gf.{new, mul}
use holofs.Rng as Rng
use holofs.Codec.Io.{ok, err, Result}
use holofs.Merkle.{shard_hash, merkle_root}
use holofs.Placement.{Placement}
use holofs.Manifest.{ObjectKind, Manifest}
use holofs.Rlnc.Linear.{dot, IsByte}
use holofs.Codec.Io
use holofs.Codec.Bytes
use holofs.Codec.Cursor
use holofs.Wire.Frame
use holofs.Wire.ShardFormat
use holofs.Sha256
use holofs.Sha256.Compress
use holofs.Client as C
use holofs.Client.Gather
use holofs.Client.Repair as RepairM
use holofs.Manifest.Place
use holofs.Placement as P
use holofs.Repair as Mix
use holofs.Rlnc.Encode as Enc
use holofs.Wire.Frame.{frame, write_frame}
use holofs.Wire.Request as Req
use holofs.Wire.Request.{Request}
use holofs.Wire.Response as Resp
use holofs.Client.{
  Network, Outcome, done, failed, panic, Address, rpc, call_over, received, read_response,
}
use holofs.Client.Gather.{expected_hashes}
use holofs.Client.GoodHashes.{IsGoodHash, AreGood, IsClear}
use holofs.Client.Repair.{Progress, no_stats, repair_node}
use holofs.Client.RepairIntegrity.{IsCombination, repair_node-IsCombination}

-- The one shard of an object: the first chunk, a byte.
abbrev donor : Shard
donor = record { coeffs = 1 ∷ replicate 15 0; payload = 5 ∷ [] }

abbrev one_byte : ℕ → ℕ → ℕ
one_byte channel layer = 1

abbrev chunks : ℕ → ℕ → ℕ → List ℕ
chunks channel layer j = get_or (5 ∷ []) j 0 ∷ []

donor-IsCombination : (channel layer : ℕ) → IsCombination one_byte chunks channel layer donor
unfolding dot mul new
donor-IsCombination channel layer zero = ((refl, omega arith), (refl, omega arith), refl)
donor-IsCombination channel layer (suc j) = ((refl, omega arith), (refl, omega arith), refl)

chunks-bytes : (channel layer j : ℕ) → All IsByte (chunks channel layer j)
chunks-bytes channel layer zero = (omega arith, tt)
chunks-bytes channel layer (suc j) = (omega arith, tt)

abbrev holder : Address
holder = b'a' ∷ []

abbrev replaced : Address
replaced = b'b' ∷ []

-- The holder answers with its shard, every other node with an acknowledgement.
abbrev reply : Bool → Resp.Response
reply true = Resp.shards (donor ∷ [])
reply false = Resp.ack

abbrev relay : Network
relay = record {
  World = Unit;
  connect = λ addr w. (none, w);
  exchange = λ addr sent w. (ok (frame (Resp.encode (reply (list_eq addr holder)))), w);
}

abbrev degraded : Manifest
degraded = record {
  object_id = 9;
  k = 16;
  nlayers = 1;
  n_per_layer = 2 ∷ [];
  sym_len = 1 ∷ [];
  layer_positions = [];
  channels = 1;
  width = 0;
  height = 0;
  levels = 0;
  nodes = holder ∷ replaced ∷ [];
  placement = Placement.round_robin;
  zones = [];
  data_cid = [];
  merkle_root = [];
  shard_hashes = ((shard_hash donor ∷ []) ∷ []) ∷ [];
  kind = ObjectKind.opaque;
  content_type = [];
  chunk_lens = [];
  audio_sample_rate = 0;
  text_minhash = [];
}

degraded-AreGood : AreGood (IsCombination one_byte chunks) degraded
unfolding expected_hashes
degraded-AreGood zero zero hs e =
    subst (All (IsGoodHash (IsCombination one_byte chunks) 0 0)) (some_cancel e)
      ((donor, donor-IsCombination 0 0, refl), tt)
degraded-AreGood zero (suc l) hs e = cc
degraded-AreGood (suc c) l hs e = cc

heard : (b : Bool) → read_response (ok (frame (Resp.encode (reply b)))) ≡ ok (reply b)
unfolding read_response Cursor.run Io.map_ok Frame.read_frame Cursor.◌>>=◌ Cursor.u32 Cursor.take
    frame Resp.encode Cursor.pure Bytes.from_be_bytes Bytes.to_be_bytes Resp.decode
    Resp.read_response Cursor.u8 Cursor.u16 Resp.decode_tag Cursor.repeat ShardFormat.encode_shard
    ShardFormat.decode_shard
heard true = refl
heard false = refl

only_donor :
    (b : Bool) (v : List Shard)
    → ◌≡◌ {A = Result Resp.Response} (ok (reply b)) (ok (Resp.shards v))
    → All (IsClear (IsCombination one_byte chunks)) v
only_donor true v e =
    let same : donor ∷ [] ≡ v = cc in
    subst (All (IsClear (IsCombination one_byte chunks))) same
      ((λ channel layer t good h. donor-IsCombination channel layer), tt)
only_donor false v e = cc

over_relay :
    (addr : Address) (w : Unit {0}) (framed : Result (List ℕ)) (v : List Shard)
    → (call_over relay addr (none, w) framed).0 ≡ ok (Resp.shards v)
    → All (IsClear (IsCombination one_byte chunks)) v
over_relay addr w (ok bytes) v e =
    only_donor (list_eq addr holder) v (sym (heard (list_eq addr holder)) ∙ e)
over_relay addr w (err x) v e = cc

relay-IsClear :
    (addr : Address) (req : Request) (w : Unit {0}) (v : List Shard)
    → (rpc relay addr req w).0 ≡ ok (Resp.shards v)
    → All (IsClear (IsCombination one_byte chunks)) v
unfolding rpc
relay-IsClear addr req w v e = over_relay addr w (write_frame [] (Req.encode req)) v e

progress_of : Outcome Progress → Progress
progress_of (done p) = p
progress_of (failed e) = record { manifest = degraded; rng = Rng.new 1; stats = no_stats }
progress_of panic = record { manifest = degraded; rng = Rng.new 1; stats = no_stats }

abbrev repaired : Progress
repaired = progress_of (repair_node relay (Rng.new 1) degraded (0 ∷ 1 ∷ []) 1 1 tt).0

repair-done : (repair_node relay (Rng.new 1) degraded (0 ∷ 1 ∷ []) 1 1 tt).0 ≡ done repaired
unfolding repair_node progress_of RepairM.repair_layers RepairM.fill_layer RepairM.mix_layer
    RepairM.put_fresh RepairM.donors_from RepairM.grid RepairM.layers_of RepairM.count_repair
    RepairM.push_hashes RepairM.other_nodes RepairM.take_donors RepairM.needed C.command C.ask
    C.expect_ack Gather.expect_shards Gather.contains expected_hashes rpc write_frame Req.encode
    list_eq Place.place_shard P.place P.round_robin_place P.start_position P.step_forward P.mix64
    P.search_from P.binary_search_ok Mix.mix_donors Mix.mix_rounds Mix.mix_into Mix.all_zero
    Rng.byte Rng.next Rng.new Enc.add_scaled mul new shard_hash merkle_root read_response Cursor.run
    Io.map_ok Frame.read_frame Cursor.◌>>=◌ Cursor.u32 Cursor.take frame Resp.encode Cursor.pure
    Bytes.from_be_bytes Bytes.to_be_bytes Resp.decode Resp.read_response Cursor.u8 Cursor.u16
    Resp.decode_tag Cursor.repeat ShardFormat.encode_shard ShardFormat.decode_shard
    Compress.block_words Compress.process_block Compress.rotate_right Compress.round Compress.rounds
    Compress.schedule Sha256.absorb Sha256.clear_to Sha256.copy_at Sha256.finalize Sha256.flush
    Sha256.mark Sha256.new Sha256.update
repair-done = refl

repair_node-IsCombination_example : AreGood (IsCombination one_byte chunks) repaired.manifest
repair_node-IsCombination_example =
    repair_node-IsCombination relay one_byte chunks (Rng.new 1) degraded (0 ∷ 1 ∷ []) 1 1 repaired
      tt relay-IsClear chunks-bytes degraded-AreGood repair-done

-- The replaced node got one fresh shard.
one_generated : repaired.stats.shards_generated ≡ 1
unfolding repair_node progress_of RepairM.repair_layers RepairM.fill_layer RepairM.mix_layer
    RepairM.put_fresh RepairM.donors_from RepairM.grid RepairM.layers_of RepairM.count_repair
    RepairM.push_hashes RepairM.other_nodes RepairM.take_donors RepairM.needed C.command C.ask
    C.expect_ack Gather.expect_shards Gather.contains expected_hashes rpc write_frame Req.encode
    list_eq Place.place_shard P.place P.round_robin_place P.start_position P.step_forward P.mix64
    P.search_from P.binary_search_ok Mix.mix_donors Mix.mix_rounds Mix.mix_into Mix.all_zero
    Rng.byte Rng.next Rng.new Enc.add_scaled mul new shard_hash merkle_root read_response Cursor.run
    Io.map_ok Frame.read_frame Cursor.◌>>=◌ Cursor.u32 Cursor.take frame Resp.encode Cursor.pure
    Bytes.from_be_bytes Bytes.to_be_bytes Resp.decode Resp.read_response Cursor.u8 Cursor.u16
    Resp.decode_tag Cursor.repeat ShardFormat.encode_shard ShardFormat.decode_shard
    Compress.block_words Compress.process_block Compress.rotate_right Compress.round Compress.rounds
    Compress.schedule Sha256.absorb Sha256.clear_to Sha256.copy_at Sha256.finalize Sha256.flush
    Sha256.mark Sha256.new Sha256.update
one_generated = refl
