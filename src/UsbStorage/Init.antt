-- ===== src/UsbStorage/Init.antt =====
-- USBStorage.cpp: `GetLunCount`, `FindLun` and `Init`, which find the endpoints, the logical unit and
-- the block size.
use ctgpr_msc.Base.{
  ℕ, zero, suc, ◌+◌, ◌*◌, ◌/◌, ◌%◌, List, [], ◌∷◌, ◌++◌, Bool, true, false, not, ◌&&◌, leb, ◌==◌,
  if◌then◌else◌, length, take, drop, get_or, Option, none, some,
}
use ctgpr_msc.Base.Outcome.{Outcome, done, ◌>>=◌, ◌>>◌, assert}
use ctgpr_msc.UsbStorage.{
  UsbBus, UsbStorage, Result, init_lun, request_sense, read_capacity, test_unit_ready,
}

-- `USB::EndpointDescriptor`, the members that are read.
pub record Endpoint : Type 0 where
  pub endpoint_addr : ℕ
  pub attributes : ℕ
  pub max_packet_size : ℕ

-- The members of `m_info` that `Init` reads; `endpoints` are the first `numEndpoints`.
pub record StorageInfo : Type 0 where
  pub dev_id : ℕ
  pub if_num : ℕ
  pub endpoints : List Endpoint

-- What the loop of `Init` has found.
pub record Found : Type 0 where
  pub out_endpoint : Option ℕ
  pub in_endpoint : Option ℕ
  pub packet_size : Option ℕ

unfoldable pub is_found : Option ℕ → Bool
is_found none = false
is_found (some n) = true

-- A bulk endpoint: `attributes & TransferType_Mask == TransferType_Bulk`.
unfoldable pub is_bulk : Endpoint → Bool
is_bulk e = e.attributes % 4 == 2

-- `endpointAddr & Dir_Mask == Dir_Device2Host`
unfoldable pub is_in : Endpoint → Bool
is_in e = e.endpoint_addr / 128 % 2 == 1

-- One round of the loop over the endpoints.
unfoldable pub note_endpoint : Endpoint → Found → Found
note_endpoint e f =
    if not (is_bulk e)
    then f
    else if is_in e
    then (if is_found f.in_endpoint then f else record f { in_endpoint = some e.endpoint_addr })
    else (if is_found f.out_endpoint
        then f
        else record f { out_endpoint = some e.endpoint_addr; packet_size = some e.max_packet_size })

unfoldable pub find_endpoints : List Endpoint → Found → Found
find_endpoints [] f = f
find_endpoints (e ∷ es) f = find_endpoints es (note_endpoint e f)

module _ {W : Type 0} (bus : UsbBus W) where
  -- `USBStorage::GetLunCount`: whether there is a count, and the count, an 8-bit word.
  unfoldable pub get_lun_count : ℕ → W → UsbStorage → Bool × ℕ × UsbStorage × W
  get_lun_count if_num w s =
      let r = bus.ctrl w s.id 0xA1 0xfe 0 if_num (take 1 s.buffer) in
      let count = (get_or r.1 0 0 + 1) % 256 in
      let t = record s { buffer = r.1 ++ drop (length r.1) s.buffer } in
      if not r.0 then (false, 0, t, r.2) else (leb 1 count && leb count 16, count, t, r.2)

  -- The attempts at one unit in `FindLun`, from the attempt `i` on and with `left` left.
  pub try_lun : ℕ → ℕ → ℕ → ℕ → W → UsbStorage → Outcome (Result bus)
  try_lun fuel zero i lun w s = done (record { good = false; buffer = []; disk = s; world = w })
  try_lun fuel (suc left) i lun w s = init_lun bus fuel lun w s >>= λ r. elim r.good [
    | true ↦ done r
    | false ↦ request_sense bus fuel lun r.world r.disk >>= λ q.
        try_lun fuel left (suc i) lun (bus.sleep q.world (i * 10)) q.disk
  ]

  -- `USBStorage::FindLun`, from `lun` on and with `left` units left; the unit is kept in the object.
  pub find_lun : ℕ → ℕ → ℕ → W → UsbStorage → Outcome (Result bus)
  find_lun fuel zero lun w s =
      done (record { good = false; buffer = []; disk = record s { lun = lun }; world = w })
  find_lun fuel (suc left) lun w s = try_lun fuel 5 0 lun w (record s { lun = lun }) >>= λ r.
      elim r.good [ true ↦ done r | false ↦ find_lun fuel left (suc lun) r.world r.disk ]

  -- The end of `Init`, once the unit is found.
  unfoldable pub init_unit : ℕ → W → UsbStorage → Outcome (Result bus)
  init_unit fuel w s = do
    r ← read_capacity bus fuel s.lun w s
    (if not r.good
        then done r
        else (test_unit_ready bus fuel s.lun r.world r.disk >>= λ t.
            done (if not t.good then t else record t { disk = record t.disk { valid = true } })))

  -- What `Init` does with the endpoints.
  unfoldable pub init_with :
      ℕ → StorageInfo → Option ℕ → Option ℕ → W → UsbStorage → Outcome (Result bus)
  init_with fuel info none in_endpoint w s =
      done (record { good = false; buffer = []; disk = s; world = w })
  init_with fuel info (some out) none w s =
      done (record { good = false; buffer = []; disk = s; world = w })
  init_with fuel info (some out) (some in_) w s =
      let c = get_lun_count info.if_num w (record s { id = info.dev_id }) in
      if not c.0
      then done (record { good = false; buffer = []; disk = c.2; world = c.3 })
      else (find_lun fuel c.1 0 c.3 c.2 >>= λ r.
          if not r.good then done r else init_unit fuel r.world r.disk)

  -- `USBStorage::Init`
  pub init : ℕ → StorageInfo → W → UsbStorage → Outcome (Result bus)
  init fuel info w s =
      let f =
        find_endpoints info.endpoints
          (record { out_endpoint = none; in_endpoint = none; packet_size = none }) in
      let t = record s {
        out_endpoint = or_else s.out_endpoint f.out_endpoint;
        in_endpoint = or_else s.in_endpoint f.in_endpoint;
        max_packet_size = or_else s.max_packet_size f.packet_size;
      } in
      assert (leb (length info.endpoints) 16)
      >> init_with fuel info f.out_endpoint f.in_endpoint w t
    where
      or_else : ℕ → Option ℕ → ℕ
      or_else old none = old
      or_else old (some n) = n
