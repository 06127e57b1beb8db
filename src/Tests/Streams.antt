-- ===== src/Tests/Streams.antt =====
-- telnet.go and decoder.go at concrete bytes.
use arda_wed_gateway.Base.{ℕ, ◌≡◌, ◌≢◌, refl, List, [], ◌∷◌, ◌++◌, All, arith}
use arda_wed_gateway.Base.Text.{Text}
use arda_wed_gateway.Gateway.Telnet.{
  TelnetFilter, state_data, state_subnegotiation, filter_data, telnet_iac, telnet_se,
}
use arda_wed_gateway.Gateway.Telnet.Stream.{
  Item, IsItem, plain, escaped, negotiation, command, parameters, wire_all, shown_all, filter_reads,
  join_reads, filter_data-wire_all, filter_reads-join, doubled_iac_ends_body,
}
use arda_wed_gateway.Gateway.Decoder.{upper_ya, fix_smaug_ya_artifact}
use arda_wed_gateway.Gateway.Decoder.Repair.{IsClean, IsRepair, fix-IsClean}

abbrev idle_filter : TelnetFilter
idle_filter = record { state = state_data }

abbrev inner_filter : TelnetFilter
inner_filter = record { state = state_subnegotiation }

-- A letter, an escaped 255, IAC WILL ECHO, IAC NOP and the type of the terminal.
abbrev items : List Item
items = plain 65 ∷ escaped ∷ negotiation 251 1 ∷ command 241 ∷ parameters (24 ∷ 0 ∷ 65 ∷ []) ∷ []

body-HasNoIac : All (λ b. b ≢ telnet_iac) (24 ∷ 0 ∷ 65 ∷ [])
body-HasNoIac = (omega arith, (omega arith, (omega arith, tt)))

items-AreItems : All IsItem items
items-AreItems =
    (omega arith, (tt, (refl, ((refl, omega arith, omega arith), (body-HasNoIac, tt)))))

filter_data-wire_all_example :
    filter_data idle_filter (wire_all items) ≡ (idle_filter, shown_all items)
filter_data-wire_all_example = filter_data-wire_all items items-AreItems

-- A negotiation cut in two by the end of a read.
abbrev cut_reads : List (List ℕ)
cut_reads = (72 ∷ 255 ∷ 251 ∷ []) ∷ (1 ∷ 105 ∷ []) ∷ []

filter_reads-join_example :
    filter_reads idle_filter cut_reads ≡ filter_data idle_filter (join_reads cut_reads)
filter_reads-join_example = filter_reads-join idle_filter cut_reads

doubled_iac_ends_body_example :
    filter_data inner_filter ((24 ∷ 0 ∷ 65 ∷ []) ++ (telnet_iac ∷ telnet_iac ∷ telnet_se ∷ 66 ∷ []))
    ≡ filter_data idle_filter (66 ∷ [])
doubled_iac_ends_body_example = doubled_iac_ends_body (24 ∷ 0 ∷ 65 ∷ []) (66 ∷ []) body-HasNoIac

-- The word Ямо, whose capital stays, and behind it моЯ, with the artifact.
abbrev spoilt_word : Text
spoilt_word = upper_ya ∷ 0x43C ∷ 0x43E ∷ 32 ∷ 0x43C ∷ 0x43E ∷ upper_ya ∷ []

fix-IsClean_example :
    IsClean 0 (fix_smaug_ya_artifact spoilt_word)
    × IsRepair 0 spoilt_word (fix_smaug_ya_artifact spoilt_word)
fix-IsClean_example = fix-IsClean spoilt_word
