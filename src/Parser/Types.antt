-- ===== src/Parser/Types.antt =====
-- The data of the parser: src/include/xdp2/parser_types.h, tlvs.h, flag_fields.h and arrays.h.
-- A pointer into the packet is an offset. A pointer to a parse node or a TLV node is a number that
-- the graph resolves, since these point to one another in cycles; a pointer that may be null is an
-- `Option`. The super-structures that the C code reaches by a cast are the constructors of `Body`
-- and `DefBody`, which also stand for the field `node_type`.
use xdp.Base.{ℕ, ℤ, Bool, List, Option}

-- The bytes of the packet.
abbrev pub Packet : Type 0
Packet = List ℕ

abbrev pub Ptr : Type 0
Ptr = ℕ

abbrev pub NodeRef : Type 0
NodeRef = ℕ

abbrev pub TlvRef : Type 0
TlvRef = ℕ

-- A table that maps a number to a node: `entries[num_ents]` of each of the four kinds of table.
-- A node is null where the entry holds a null pointer.
abbrev pub Table : Type 0 → Type 0
Table A = List (ℤ × Option A)

-- `struct xdp2_ctrl_var_data`; the code is the `__s8`, the counts are `__u8`.
pub record CtrlVar : Type 0 where
  pub last_node : Option NodeRef
  pub ret_code : ℤ
  pub encaps : ℕ
  pub node_cnt : ℕ
  pub tlv_levels : ℕ
  pub pkt_csum : ℕ
  pub hdr_csum : ℕ

-- What callbacks may write through the pointers that they are given: the counters and keys of
-- `struct xdp2_ctrl_key_data`, and the metadata with its frames (`M`, which belongs to the caller).
pub record Store (M : Type 0) : Type 0 where
  pub counters : ℕ → ℕ
  pub keys : ℕ → ℕ
  pub metadata : M

pub record State (M : Type 0) : Type 0 where
  pub var : CtrlVar
  pub store : Store M

-- `struct xdp2_proto_def`, `struct xdp2_parse_ops`
pub record ParseOps : Type 0 where
  pub len : Option (Packet → Ptr → ℕ → ℤ)
  pub next_proto : Option (Packet → Ptr → ℤ)
  pub next_proto_keyin : Option (Packet → Ptr → ℕ → ℤ)

-- `struct xdp2_proto_tlvs_def` and its `xdp2_proto_tlvs_opts`
pub record TlvsDef : Type 0 where
  pub len : Option (Packet → Ptr → ℕ → ℤ)
  pub type_of : Packet → Ptr → ℤ
  pub start_offset : Packet → Ptr → ℕ
  pub pad1_val : ℕ
  pub eol_val : ℕ
  pub pad1_enable : Bool
  pub eol_enable : Bool
  pub min_len : ℕ

-- `struct xdp2_proto_tlv_def` and its `xdp2_proto_tlv_def_ops`
pub record TlvDef : Type 0 where
  pub min_len : ℕ
  pub overlay_type : Option (Packet → Ptr → ℤ)
  pub nested_offset : Option (Packet → Ptr → ℕ → ℕ)

-- `struct xdp2_flag_field`: a flag, its mask (0 for none) and the size of its data
pub record FlagField : Type 0 where
  pub flag : ℕ
  pub mask : ℕ
  pub size : ℕ

-- `struct xdp2_proto_flag_fields_def`; the list is `struct xdp2_flag_fields`
pub record FlagFieldsDef : Type 0 where
  pub get_flags : Packet → Ptr → ℕ
  pub start_fields_offset : Packet → Ptr → ℕ
  pub fields : List FlagField

-- `struct xdp2_proto_array_def` and its `xdp2_proto_array_opts`
pub record ArrayDef : Type 0 where
  pub num_els : Packet → Ptr → ℕ → ℕ
  pub el_type : Option (Packet → Ptr → ℤ)
  pub start_offset : Packet → Ptr → ℕ
  pub el_length : ℕ

pub data DefBody : Type 0 where
  plain : DefBody
  tlvs : TlvsDef → DefBody
  flag_fields : FlagFieldsDef → DefBody
  array : ArrayDef → DefBody

pub record ProtoDef : Type 0 where
  pub body : DefBody
  pub encap : Bool
  pub overlay : Bool
  pub min_len : ℕ
  pub ops : ParseOps

-- `struct xdp2_parse_tlvs_node`, less the field `max_tlv_len` that nothing reads
pub record TlvsNode : Type 0 where
  pub tlv_proto_table : Option (Table TlvRef)
  pub max_tlvs : ℕ
  pub unknown_tlv_type_ret : ℤ
  pub tlv_wildcard_node : Option TlvRef

module _ (M : Type 0) where
  -- `extract_metadata(hdr, hdr_len, metadata, frame, ctrl)`; the header is null for an exit node,
  -- the frame is its offset behind `metadata`.
  abbrev pub Extract : Type 0
  Extract = Packet → Option Ptr → ℕ → ℕ → CtrlVar → Store M → Store M

  abbrev pub Handler : Type 0
  Handler = Packet → Option Ptr → ℕ → ℕ → CtrlVar → Store M → ℤ × Store M

  -- The callbacks `extract_metadata` and `handler` that every kind of node has.
  pub record NodeOps : Type 0 where
    pub extract_metadata : Option Extract
    pub handler : Option Handler

  -- `struct xdp2_parse_tlv_node`
  pub record TlvNode : Type 0 where
    pub proto_tlv_def : Option TlvDef
    pub tlv_ops : NodeOps
    pub overlay_table : Option (Table TlvRef)
    pub overlay_wildcard_node : Option TlvRef
    pub nested_node : Option NodeRef
    pub unknown_overlay_ret : ℤ

  -- `struct xdp2_parse_array_node`, less the field `max_els` that nothing reads
  pub record ArrayNode : Type 0 where
    pub array_proto_table : Option (Table NodeOps)
    pub unknown_array_type_ret : ℤ
    pub array_wildcard_node : Option NodeOps

  pub data Body : Type 0 where
    plain : Body
    tlvs : TlvsNode → Body
    flag_fields : Table NodeOps → Body
    array : ArrayNode → Body

  -- `struct xdp2_parse_node`
  pub record ParseNode : Type 0 where
    pub body : Body
    pub unknown_ret : ℤ
    pub key_sel : ℕ
    pub zero_len_ok : Bool
    pub proto_def : Option ProtoDef
    pub ops : NodeOps
    pub post_handler : Option Handler
    pub proto_table : Option (Table NodeRef)
    pub wildcard_node : Option NodeRef

  -- The parse nodes and TLV nodes of the program, by their addresses.
  pub record Graph : Type 0 where
    pub node : NodeRef → ParseNode
    pub tlv_node : TlvRef → TlvNode

-- `struct xdp2_parser_config`
pub record Config : Type 0 where
  pub max_nodes : ℕ
  pub max_encaps : ℕ
  pub max_frames : ℕ
  pub metameta_size : ℕ
  pub frame_size : ℕ
  pub num_counters : ℕ
  pub num_keys : ℕ
  pub okay_node : Option NodeRef
  pub fail_node : Option NodeRef
  pub atencap_node : Option NodeRef

-- `struct xdp2_parser`, less its name and the entry points of generated parsers
pub record Parser (M : Type 0) : Type 0 where
  pub config : Config
  pub root_node : NodeRef
  pub graph : Graph M
