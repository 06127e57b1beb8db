-- ===== src/Gateway/Telnet/Stream.antt =====
-- What the Telnet filter does to a stream: the order of chunks, whole commands, escapes.
use mathlib.Core.List.Sublist
use mathlib.Core.List.{Sublist}
use arda_wed_gateway.Base.{
  ℕ, ◌≡◌, ◌≢◌, ◌⊎◌, inl, inr, refl, ◌∙◌, true, false, List, [], ◌∷◌, ◌++◌, append-nil, append_assoc,
  arith, All,
}
use arda_wed_gateway.Gateway.Telnet.{
  TelnetState, state_data, state_subnegotiation, TelnetFilter, telnet_iac, telnet_sb, telnet_se,
  is_negotiation, filter_byte, filter_loop, filter_data,
}

filter_loop-out :
    (s : TelnetState) (out bs : List ℕ)
    → filter_loop s out bs ≡ ((filter_loop s [] bs).0, out ++ (filter_loop s [] bs).1)
unfolding filter_loop
filter_loop-out s out [] = rw (append-nil out)
filter_loop-out s out (b ∷ bs) =
    filter_loop-out (filter_byte s b).0 (out ++ (filter_byte s b).1) bs
    ∙ rw (filter_loop-out (filter_byte s b).0 (filter_byte s b).1 bs, append_assoc)

filter_loop-append :
    (s : TelnetState) (out xs ys : List ℕ)
    → filter_loop s out (xs ++ ys)
      ≡ filter_loop (filter_loop s out xs).0 (filter_loop s out xs).1 ys
unfolding filter_loop
filter_loop-append s out [] ys = refl
filter_loop-append s out (x ∷ xs) ys =
    filter_loop-append (filter_byte s x).0 (out ++ (filter_byte s x).1) xs ys

-- The reads of one connection, one call of the filter each, with the outputs joined.
pub filter_reads : TelnetFilter → List (List ℕ) → TelnetFilter × List ℕ
unfolding filter_data
filter_reads f [] = (f, [])
filter_reads f (c ∷ cs) = (
  (filter_reads (filter_data f c).0 cs).0,
  (filter_data f c).1 ++ (filter_reads (filter_data f c).0 cs).1,
)

pub join_reads : List (List ℕ) → List ℕ
join_reads [] = []
join_reads (c ∷ cs) = c ++ join_reads cs

-- The filter is indifferent to where reads cut the stream: filtering each read in turn leaves the
-- state and gives the joined output of one call on the joined reads.
pub filter_reads-join :
    (f : TelnetFilter) (cs : List (List ℕ)) → filter_reads f cs ≡ filter_data f (join_reads cs)
unfolding filter_reads filter_data filter_loop join_reads
filter_reads-join f [] = refl
filter_reads-join f (c ∷ cs) =
    rw (filter_reads-join (filter_data f c).0 cs, filter_loop-append f.state [] c (join_reads cs))
      (rw
        (filter_loop-out (filter_loop f.state [] c).0 (filter_loop f.state [] c).1 (join_reads cs)))

-- The units of a Telnet stream: a data byte, a doubled IAC, a negotiation, another command, and a
-- subnegotiation with its body.
pub data Item : Type 0 where
  plain : ℕ → Item
  escaped : Item
  negotiation : ℕ → ℕ → Item
  command : ℕ → Item
  parameters : List ℕ → Item

abbrev pub IsItem : Item → Type 0
IsItem (plain b) = b ≢ telnet_iac
IsItem escaped = Unit {0}
IsItem (negotiation verb option) = is_negotiation verb ≡ true
IsItem (command c) = (is_negotiation c ≡ false) × (c ≢ telnet_sb) × (c ≢ telnet_iac)
IsItem (parameters body) = All (λ b. b ≢ telnet_iac) body

pub wire : Item → List ℕ
wire (plain b) = b ∷ []
wire escaped = telnet_iac ∷ telnet_iac ∷ []
wire (negotiation verb option) = telnet_iac ∷ verb ∷ option ∷ []
wire (command c) = telnet_iac ∷ c ∷ []
wire (parameters body) = telnet_iac ∷ telnet_sb ∷ (body ++ (telnet_iac ∷ telnet_se ∷ []))

-- What an item means for the terminal.
pub shown : Item → List ℕ
shown (plain b) = b ∷ []
shown escaped = telnet_iac ∷ []
shown (negotiation verb option) = []
shown (command c) = []
shown (parameters body) = []

pub wire_all : List Item → List ℕ
wire_all [] = []
wire_all (i ∷ is) = wire i ++ wire_all is

pub shown_all : List Item → List ℕ
shown_all [] = []
shown_all (i ∷ is) = shown i ++ shown_all is

-- A body with no IAC is skipped to its end.
skip_body :
    (body rest out : List ℕ)
    → All (λ b. b ≢ telnet_iac) body
    → filter_loop state_subnegotiation out (body ++ rest)
      ≡ filter_loop state_subnegotiation out rest
unfolding filter_loop filter_byte
skip_body [] rest out h = refl
skip_body (b ∷ body) rest out h = ground (arith, skip_body body rest out h.1, append-nil out)

filter_item :
    (i : Item) (rest out : List ℕ)
    → IsItem i
    → filter_loop state_data out (wire i ++ rest) ≡ filter_loop state_data (out ++ shown i) rest
unfolding filter_loop filter_byte wire shown
filter_item (plain b) rest out h = ground arith
filter_item escaped rest out h = ground (arith, append-nil out)
filter_item (negotiation verb option) rest out h = ground (arith, append-nil out)
filter_item (command c) rest out h = ground (arith, append-nil out)
filter_item (parameters body) rest out h =
    rw (append_assoc body (telnet_iac ∷ telnet_se ∷ []) rest)
      (skip_body body (telnet_iac ∷ telnet_se ∷ rest) (out ++ [] ++ []) h ∙ simp append-nil)

filter_items :
    (is : List Item) (out : List ℕ)
    → All IsItem is
    → filter_loop state_data out (wire_all is) ≡ (state_data, out ++ shown_all is)
unfolding wire_all shown_all
filter_items [] out h = unfold filter_loop in rw (append-nil out)
filter_items (i ∷ is) out h =
    filter_item i (wire_all is) out h.0 ∙ filter_items is (out ++ shown i) h.1 ∙ rw append_assoc

-- On a stream of whole items, started and left between items, the filter returns exactly the data
-- bytes and one IAC for each doubled IAC: negotiations, other commands and subnegotiations whose
-- body holds no IAC disappear.
pub filter_data-wire_all :
    (is : List Item)
    → All IsItem is
    → filter_data (record { state = state_data }) (wire_all is)
      ≡ (record { state = state_data }, shown_all is)
unfolding filter_data
filter_data-wire_all is h = rw (filter_items is [] h)

-- Inside a subnegotiation a doubled IAC stands for the byte 255, so an SE behind it is a body byte.
-- The filter ends the subnegotiation there all the same: what follows in the body is shown.
pub doubled_iac_ends_body :
    (body rest : List ℕ)
    → All (λ b. b ≢ telnet_iac) body
    → filter_data
        (record { state = state_subnegotiation })
        (body ++ (telnet_iac ∷ telnet_iac ∷ telnet_se ∷ rest))
      ≡ filter_data (record { state = state_data }) rest
unfolding filter_data filter_loop filter_byte
doubled_iac_ends_body body rest h =
    rw (skip_body body (telnet_iac ∷ telnet_iac ∷ telnet_se ∷ rest) [] h)

filter_byte-cases :
    (s : TelnetState) (b : ℕ) → ((filter_byte s b).1 ≡ []) ⊎ ((filter_byte s b).1 ≡ b ∷ [])
unfolding filter_byte
filter_byte-cases s b = ground arith

filter_loop-cons :
    (s : TelnetState) (b : ℕ) (bs : List ℕ)
    → (filter_loop s [] (b ∷ bs)).1
      ≡ (filter_byte s b).1 ++ (filter_loop (filter_byte s b).0 [] bs).1
unfolding filter_loop
filter_loop-cons s b bs = rw (filter_loop-out (filter_byte s b).0 (filter_byte s b).1 bs)

filter_loop-sublist : (s : TelnetState) (bs : List ℕ) → Sublist (filter_loop s [] bs).1 bs
filter_loop-sublist s [] = unfold filter_loop in Sublist.refl []
filter_loop-sublist s (b ∷ bs) =
    let rest : Sublist (filter_loop (filter_byte s b).0 [] bs).1 bs =
      filter_loop-sublist (filter_byte s b).0 bs in
    elim (filter_byte-cases s b) [
      | inl e ↦ rw (filter_loop-cons s b bs, e) (Sublist.cons b rest)
      | inr e ↦ rw (filter_loop-cons s b bs, e) (Sublist.cons-cons b rest)
    ]

-- The filter only leaves bytes out: from every state, what it returns is a subsequence of what it
-- was given.
filter_data-sublist : (f : TelnetFilter) (bytes : List ℕ) → Sublist (filter_data f bytes).1 bytes
unfolding filter_data
filter_data-sublist f bytes = filter_loop-sublist f.state bytes
