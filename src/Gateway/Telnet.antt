-- ===== src/Gateway/Telnet.antt =====
-- backend/internal/gateway/telnet.go: the filter that takes Telnet commands out of the upstream bytes.
pub mod Stream
use arda_wed_gateway.Base.{ℕ, Bool, ◌||◌, List, [], ◌∷◌, ◌++◌, ◌==◌, if◌then◌else◌}

abbrev pub telnet_iac : ℕ
telnet_iac = 255

abbrev pub telnet_will : ℕ
telnet_will = 251

abbrev pub telnet_wont : ℕ
telnet_wont = 252

abbrev pub telnet_do : ℕ
telnet_do = 253

abbrev pub telnet_dont : ℕ
telnet_dont = 254

abbrev pub telnet_sb : ℕ
telnet_sb = 250

abbrev pub telnet_se : ℕ
telnet_se = 240

pub data TelnetState : Type 0 where
  state_data state_iac state_skip_option state_subnegotiation state_subnegotiation_iac : TelnetState

pub record TelnetFilter : Type 0 where
  pub state : TelnetState

-- The bytes WILL, WONT, DO and DONT, which an option byte follows.
abbrev pub is_negotiation : ℕ → Bool
is_negotiation b = b == telnet_will || b == telnet_wont || b == telnet_do || b == telnet_dont

-- One round of the loop: the next state, and what the round appends to the output.
unfoldable pub filter_byte : TelnetState → ℕ → TelnetState × List ℕ
filter_byte state_data b = if b == telnet_iac then (state_iac, []) else (state_data, b ∷ [])
filter_byte state_iac b =
    if is_negotiation b
    then (state_skip_option, [])
    else (if b == telnet_sb
        then (state_subnegotiation, [])
        else (if b == telnet_iac then (state_data, b ∷ []) else (state_data, [])))
filter_byte state_skip_option b = (state_data, [])
filter_byte state_subnegotiation b =
    if b == telnet_iac then (state_subnegotiation_iac, []) else (state_subnegotiation, [])
filter_byte state_subnegotiation_iac b =
    if b == telnet_se
    then (state_data, [])
    else (if b == telnet_iac then (state_subnegotiation_iac, []) else (state_subnegotiation, []))

-- `for _, b := range data`, with the output so far.
unfoldable pub filter_loop : TelnetState → List ℕ → List ℕ → TelnetState × List ℕ
filter_loop s out [] = (s, out)
filter_loop s out (b ∷ bs) = filter_loop (filter_byte s b).0 (out ++ (filter_byte s b).1) bs

-- A call returns the filter with its new state, and the bytes that are left.
unfoldable pub filter_data : TelnetFilter → List ℕ → TelnetFilter × List ℕ
unfolding filter_loop
filter_data f bytes = let (s, out) = filter_loop f.state [] bytes in (record f { state = s }, out)
