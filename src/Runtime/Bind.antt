-- ===== src/Runtime/Bind.antt =====
-- src/runtime/runtime.cpp: which channel a stream runs on, and the priority it is programmed to.
use softgpu.Base.{
  ℕ, zero, suc, ◌+◌, ◌-◌, ◌%◌, ◌^◌, Option, none, some, Bool, true, not, ◌&&◌, ltb, ◌==◌,
  if◌then◌else◌, update,
}
use softgpu.Errno.{Rc, ok}
use softgpu.Integers.{ℤ, ltb_int}
use softgpu.Device.Runlist.{is_ok}
use softgpu.Device.{priority_least, is_default}
use softgpu.Runtime.{
  SgError, sg_ok, not_initialized, invalid_value, from_errno, Stream, ChanBind, Runtime, new_stream,
  is_open,
}
use softgpu.Runtime.Api.{Priorities}

-- clamp_priority
abbrev pub clamp_priority : {D : Type 0} → Runtime D → ℤ → ℤ
clamp_priority rt p =
    if ltb_int p rt.prio_greatest
    then rt.prio_greatest
    else if ltb_int rt.prio_least p
    then rt.prio_least
    else p

-- `a == b`
abbrev pub eq_int : ℤ → ℤ → Bool
eq_int a b = not (ltb_int a b) && not (ltb_int b a)

-- `found < 0 || users < best_users`
abbrev pub fewer : ℕ → Option (ℕ × ℕ) → Bool
fewer users none = true
fewer users (some (c, best)) = ltb users best

-- The first loop of `bind_channel`, from channel c on: `found` and `best_users`.
unfoldable pub least_users : (ℕ → ChanBind) → ℤ → ℕ → ℕ → Option (ℕ × ℕ) → Option (ℕ × ℕ)
least_users bind p c zero best = best
least_users bind p c (suc n) best = least_users bind p (suc c) n (
    if eq_int (bind c).priority p && fewer (bind c).users best
    then some (c, (bind c).users)
    else best)

-- The second loop: the first channel without users.
unfoldable pub first_unused : (ℕ → ChanBind) → ℕ → ℕ → Option ℕ
first_unused bind c zero = none
first_unused bind c (suc n) = if (bind c).users == 0 then some c else first_unused bind (suc c) n

module _ {D : Type 0} (api : Priorities D) where
  -- set_priority_all, over engines e, ..., e + n - 1.
  unfoldable pub set_priority_from : ℕ → ℤ → ℕ → ℕ → D → Rc × D
  set_priority_from c p e zero d = (ok, d)
  set_priority_from c p e (suc n) d =
      let (rc, d') = api.set_priority e c p d in
      let rest = set_priority_from c p (suc e) n d' in if is_ok rc then rest else (rc, d')

  -- set_priority_all
  unfoldable pub set_priority_all : Runtime D → ℕ → ℤ → Rc × Runtime D
  unfolding set_priority_from
  set_priority_all rt c p =
      let (rc, d) = set_priority_from c p 0 rt.num_engines rt.drv in (rc, record rt { drv = d })

  -- One more user of a channel, which the stream is given.
  unfoldable pub take_channel : Runtime D → ℕ → SgError × Option ℕ × Runtime D
  take_channel rt c =
      let b = rt.bind c in
      (sg_ok, some c, record rt { bind = update rt.bind c (record b { users = suc b.users }) })

  -- The channel of the second loop, programmed; `none` when every channel has users.
  unfoldable pub claim_unused : Runtime D → ℤ → Option ℕ → SgError × Option ℕ × Runtime D
  unfolding set_priority_all take_channel
  claim_unused rt p none = (invalid_value, none, rt)
  claim_unused rt p (some c) =
      let (rc, rt') = set_priority_all rt c p in
      let (_, undone) = set_priority_all rt' c priority_least in
      if is_ok rc
      then take_channel
          (record rt' { bind = update rt'.bind c (record (rt'.bind c) { priority = p }) }) c
      else (from_errno rc, none, undone)

  unfoldable pub bind_found : Runtime D → ℤ → Option (ℕ × ℕ) → SgError × Option ℕ × Runtime D
  unfolding claim_unused first_unused take_channel
  bind_found rt p (some (c, users)) = take_channel rt c
  bind_found rt p none = claim_unused rt p (first_unused rt.bind 0 rt.num_channels)

  -- bind_channel: `s->channel` is the second component.
  unfoldable pub bind_channel : Runtime D → ℤ → SgError × Option ℕ × Runtime D
  unfolding bind_found least_users
  bind_channel rt p = bind_found rt p (least_users rt.bind p 0 rt.num_channels none)

  -- unbind_channel, for the stream's channel c.
  unfoldable pub unbind_channel : Runtime D → ℕ → Runtime D
  unfolding set_priority_all
  unbind_channel rt c =
      let b = record (rt.bind c) { users = (rt.bind c).users - 1 } in
      let rt' = record rt { bind = update rt.bind c b } in
      let (rc, reset) = set_priority_all rt' c priority_least in
      if (b.users == 0) && not (is_default b.priority)
      then (if is_ok rc
          then record reset { bind = update reset.bind c (record b { priority = priority_least }) }
          else reset)
      else rt'

  -- `g_num_ce ? 1 + (s->id % g_num_ce) : 0`
  abbrev pub copy_engine : Runtime D → ℕ → ℕ
  copy_engine rt id = if rt.num_ce == 0 then 0 else 1 + id % rt.num_ce

  unfoldable pub created :
      ℕ → Stream → SgError × Option ℕ × Runtime D → SgError × Option ℕ × Runtime D
  created address s (e, none, rt) = (e, none, rt)
  created address s (e, some c, rt) = (
    e,
    some address,
    record rt { streams = update rt.streams address (some (record s { channel = c })) },
  )

  -- create_stream with a non-null `out`: `address` is what `new` returns, and the result `*out`.
  unfoldable pub create_stream : Runtime D → ℕ → ℤ → SgError × Option ℕ × Runtime D
  unfolding bind_channel created
  create_stream rt address p =
      let id = rt.next_stream_id in
      let rt' = record rt { next_stream_id = (id + 1) % 2 ^ 32 } in
      let s = record new_stream { id = id; ce = copy_engine rt id } in
      if not (is_open rt)
      then (not_initialized, none, rt)
      else created address s (bind_channel rt' (clamp_priority rt p))

  unfoldable pub destroy_found : Runtime D → ℕ → Option Stream → SgError × Runtime D
  unfolding unbind_channel
  destroy_found rt address none = (invalid_value, rt)
  destroy_found rt address (some s) =
      let rt' = unbind_channel rt s.channel in
      (sg_ok, record rt' { streams = update rt'.streams address none })

  -- sgStreamDestroy of a stream's address, or of null where there is none.
  unfoldable pub stream_destroy : Runtime D → ℕ → SgError × Runtime D
  unfolding destroy_found
  stream_destroy rt address =
      if not (is_open rt)
      then (not_initialized, rt)
      else destroy_found rt address (rt.streams address)
