-- ===== src/Wifi/Loop/Retry.antt =====
-- How attempts of `WiFiManager` in src/Platform/Espressif/Wifi/WiFiManager.cpp end.
use io_tsmart_sys_core.Base.{
  ℕ, Bool, ◌+◌, ◌≤◌, ◌<◌, ◌&&◌, true, false, ◌≡◌, refl, List, ◌∷◌, arith, ◌==◌, u32,
}
use io_tsmart_sys_core.Backoff.{compute_backoff_ms}
use io_tsmart_sys_core.Backoff.Bounds.{compute_backoff_ms_lem}
use io_tsmart_sys_core.Connectivity.{is_network_ready}
use io_tsmart_sys_core.Wifi.{
  Credential, connecting, connected, backoff_waiting, Wifi, Compiled, configured,
}
use io_tsmart_sys_core.Wifi.Loop.{
  Radio, associated, got_ip, is_connected, is_due, schedule_retry, aim, connect_with, start_connect,
  handle_connecting, handle_backoff, handle, on_wifi_event,
}
use io_tsmart_sys_core.Wifi.Select.{select_best_access_point}

backoff_starts :
    (compiled : Compiled) (r : Radio) (w : Wifi) (c : Credential) (cs : List Credential)
    → configured compiled w.cfg ≡ c ∷ cs
    → w.state ≡ backoff_waiting
    → w.next_action_at_ms ≤ r.now
    → (handle compiled r w).state ≡ connecting
unfolding handle handle_backoff start_connect connect_with aim select_best_access_point
backoff_starts compiled r w c cs e s due = ground arith

connecting_comes_up :
    (compiled : Compiled) (r : Radio) (w : Wifi)
    → w.state ≡ connecting
    → w.got_ip ≡ true
    → r.link_up ≡ true
    → ((handle compiled r w).state ≡ connected)
      × (is_network_ready (handle compiled r w).bits ≡ true)
      × ((handle compiled r w).attempt ≡ 0)
unfolding handle handle_connecting
connecting_comes_up compiled r w s ip up = ground arith

-- A pass at the clock of `r`, the radio's events, and a pass at the clock of `s`.
abbrev pub reconnected : Compiled → Radio → Radio → ℕ → Wifi → Wifi
reconnected compiled r s t w =
    handle compiled s
      (on_wifi_event (got_ip true) (on_wifi_event (associated t) (handle compiled r w)))

-- Once the wait is over, with credentials configured: if the radio then associates and gets an
-- address with a usable DNS, the next call of `handle` over a live link is connected, with the
-- network bits set and no attempts counted.
pub backoff_comes_up :
    (compiled : Compiled) (r s : Radio) (t : ℕ) (w : Wifi) (c : Credential) (cs : List Credential)
    → configured compiled w.cfg ≡ c ∷ cs
    → w.state ≡ backoff_waiting
    → w.next_action_at_ms ≤ r.now
    → s.link_up ≡ true
    → ((reconnected compiled r s t w).state ≡ connected)
      × (is_network_ready (reconnected compiled r s t w).bits ≡ true)
      × ((reconnected compiled r s t w).attempt ≡ 0)
unfolding on_wifi_event
backoff_comes_up compiled r s t w c cs e st due up =
    connecting_comes_up compiled s
      (on_wifi_event (got_ip true) (on_wifi_event (associated t) (handle compiled r w)))
      (backoff_starts compiled r w c cs e st due) refl up

-- The manager waits, and will try again within the longest backoff and its jitter.
pub record IsWaiting (r : Radio) (w v : Wifi) : Type 0 where
  pub state : v.state ≡ backoff_waiting
  pub counted : v.attempt ≡ u32 (w.attempt + 1)
  pub wait : ℕ
  pub due : v.next_action_at_ms ≡ u32 (r.later + wait)
  pub bounded : wait ≤ w.cfg.backoff.max_backoff_ms + w.cfg.backoff.jitter_ms

module _ (r : Radio) (w : Wifi)
    (fits : w.cfg.backoff.max_backoff_ms + w.cfg.backoff.jitter_ms < 4294967295)
    (small : w.cfg.backoff.initial_backoff_ms < 4294967296) where
  backoff_bounded :
      (attempt : ℕ)
      → compute_backoff_ms w.cfg.backoff attempt r.random
        ≤ w.cfg.backoff.max_backoff_ms + w.cfg.backoff.jitter_ms
  backoff_bounded attempt =
      let l = compute_backoff_ms_lem w.cfg.backoff attempt r.random fits small in omega (arith, l)

-- How an attempt ends that is due: with `extends` the wait for an address is extended.
abbrev pub Ends : Bool → Radio → Wifi → Wifi → Type 0
Ends true r w v =
    v
    ≡ record w { dhcp_wait_extensions = 1; next_action_at_ms = u32 (r.now + w.cfg.dhcp_timeout_ms) }
Ends false r w v = IsWaiting r w v

abbrev pub extends : Wifi → Bool
extends w = w.associated && (w.dhcp_wait_extensions == 0)

Ends-as :
    (compiled : Compiled) (r : Radio) (w : Wifi)
    → w.cfg.backoff.max_backoff_ms + w.cfg.backoff.jitter_ms < 4294967295
    → w.cfg.backoff.initial_backoff_ms < 4294967296
    → w.state ≡ connecting
    → is_connected r w ≡ false
    → is_due r w ≡ true
    → (b : Bool) → extends w ≡ b
    → Ends b r w (handle compiled r w)
unfolding handle handle_connecting schedule_retry
Ends-as compiled r w fits small s down due true h = ground arith
Ends-as compiled r w fits small s down due false h = record {
  state = ground arith;
  counted = ground arith;
  wait = compute_backoff_ms w.cfg.backoff (u32 (w.attempt + 1)) r.random;
  due = ground arith;
  bounded = backoff_bounded r w fits small (u32 (w.attempt + 1));
}

-- Where the maximum backoff and the jitter are together below 2^32 - 1, and the initial backoff is
-- below 2^32: an attempt that is due without a connection is given up where the radio has not
-- associated, or has and its one extension of the wait for an address is used up; the manager then
-- waits for at most the longest backoff and its jitter. With the extension left, it waits for the
-- address again.
pub handle_gives_up :
    (compiled : Compiled) (r : Radio) (w : Wifi)
    → w.cfg.backoff.max_backoff_ms + w.cfg.backoff.jitter_ms < 4294967295
    → w.cfg.backoff.initial_backoff_ms < 4294967296
    → w.state ≡ connecting
    → is_connected r w ≡ false
    → is_due r w ≡ true
    → Ends (extends w) r w (handle compiled r w)
handle_gives_up compiled r w fits small s down due =
    Ends-as compiled r w fits small s down due (extends w) refl
