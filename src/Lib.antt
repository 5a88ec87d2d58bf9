-- ===== src/Lib.antt =====
-- The software of the reference router (hw/projects/reference_router/sw/scone), an IPv4 router whose
-- C code keeps the tables that a NetFPGA device forwards by.
--
-- Parts and files. All paths are under hw/projects/reference_router/sw/scone.
--   State      or_data_types.h: the structs, and `struct router_state` less its threads and its locks,
--              of which the mutex of the router list is kept.
--   Net        byte order, strncpy and strncmp, as the C library documents them.
--   Packet     packets as bytes, with loads and stores of 8, 16 and 32 bits.
--   Headers    or_utils.c: populate_eth_hdr, populate_arp_hdr, populate_ip, populate_icmp.
--   Checksum   or_ip.c and or_icmp.c: compute_ip_checksum, verify_checksum, compute_icmp_checksum.
--   Bubble     the bubble sort of or_rtable.c, or_nat.c and or_netfpga.c.
--   RTable     or_rtable.c: get_next_hop and the sort of trigger_rtable_modified; in RTable/Ops
--              add_route, del_route, activate_routes, deactivate_routes; in RTable/Hardware
--              write_rtable_to_hw, with getOneHotPortNumber of or_netfpga.c.
--   NatTable   or_nat.c: the table, the choice of a port, the incremental checksums; in
--              NatTable/Upkeep the pass of nat_maintenance_thread, in NatTable/Commands cli_nat_add,
--              cli_nat_del, cli_nat_reset and cli_nat_set.
--   NatPacket  or_nat.c: process_nat_ext_packet and process_nat_int_packet, with
--              populate_nat_packet of or_utils.c; NatPacket/Checksum is about the IP checksum.
--   Iface      or_iface.c: the look-ups in the interface list, and iface_update; in Iface/Toggle
--              iface_up and iface_down (Iface/Toggle/Cycle is about the one after the other); in
--              Iface/Mac read_hw_iface_mac and write_hw_iface_mac.
--   Filters    or_netfpga.c: the local IP filters.
--   Start      or_main.c: init, init_add_interface, init_router_list, init_rtable and init_ospf, in
--              the order of sr_base.c in cpu mode. Start/Lines and Start/Fresh hold the lemmas of
--              Start/Safe, which is about what follows the start.
--   Arp        or_arp.c: the cache, the queue of waiting packets and the ARP messages, with
--              send_packet and send_ip of or_main.c; in Arp/Retry process_arp_queue.
--   Dijkstra   or_dijkstra.c: the shortest paths over the PWOSPF router list (the main loop of
--              compute_rtable); in Dijkstra/Routes the routes that the rest of compute_rtable builds
--              from them, and the pass of dijkstra_thread. Dijkstra/Nearest is about get_shortest,
--              Dijkstra/Paths about termination, Dijkstra/Relaxation, Distances and Shortest about
--              the distances.
--   Pwospf     or_pwospf.c: the packets, their checksum and is_pwospf_packet_valid, with
--              populate_pwospf* of or_utils.c; in Pwospf/Adverts the advertisements and
--              populate_pwospf_router_interface_list, in Pwospf/Flood the updates that are sent,
--              determine_active_interfaces and propagate_pwospf_changes, in Pwospf/Hello the hello
--              packets and determine_timedout_interface, in Pwospf/Lsu the updates that arrive and
--              the passes of the threads. Pwospf/Events puts the handlers together, and
--              Pwospf/Whole says what a packet must hold for them. Pwospf/Routers, Keeps, WellFormed
--              and Duplicates hold their lemmas.
--   Nodes      or_utils.c: node_create, node_push_back, node_remove and node_length on a heap;
--              Nodes/Ops relates them to lists; Nodes/Clear is the loop of or_iface.c that clears
--              the neighbours of an interface.
--   Icmp       or_icmp.c: send_icmp_packet, process_icmp_packet, send_icmp_echo_request_packet, with
--              populate_padding of or_utils.c; in Icmp/Sping wait_for_reply of or_sping.c and the
--              pass of its thread.
--   Ip         or_ip.c: process_ip_packet, is_packet_valid, send_ip_packet; process_packet of
--              or_main.c. Ip/Forward is about a packet in transit, Ip/Built and
--              Ip/Errors about the packets that the router builds.
--   Text       or_utils.c: urlencode, urldecode and my_strncat.
--   Cli        or_cli.c: cli_command_lpm.
--   Web        or_www.c: the reading of a request (Web/Request), and list_commands and send_all
--              (Web/Replies).
--   Prelude    shared names, Boolean tests and list lemmas.
--
-- How they interact: Ip takes a frame and hands it to Arp, Icmp, Pwospf or, translated by NatPacket,
-- to the next hop that RTable finds. Pwospf keeps the router list that Dijkstra reads; Icmp and Ip
-- send by send_ip of Arp. The handlers and operations take the router state and return it; each
-- change of a table that the device holds ends in the register writes of that table, which are
-- appended to the state's log, as the frames that are sent are appended to another.
--
-- Conventions. Numbers are natural numbers; where the code's integers wrap, the wrap is written out.
-- Addresses, ports and checksums are as they lie in memory, on a little-endian host. A linked list of
-- nodes is the list of its data (outside Nodes), and the pointer `prev_router` is the id of the
-- router. A null pointer that is followed, or a failed assertion, is `none`; so are, in Pwospf/Lsu and
-- Pwospf/Hello, a read past the packet and a write past its copy, and, in NatTable/Upkeep, a write to
-- a freed entry. Reads of a packet by other parts give 0 past its end, and stores change nothing
-- there. What `time` and the driver return are arguments; what `rand` will return, and the packets that
-- the transport layer got, are fields of the state. The constants of reg_defines.h, which the hardware build generates, are
-- parameters `width` and `address`.
--
-- Fuel. The bubble sort runs until a pass swaps nothing. It gets one pass more than the table has
-- pairs in the wrong order, which suffices because a pass that swaps removes such a pair. The main
-- loop of Dijkstra's algorithm gets one round for each router and one more: each round settles a
-- router that was not settled. The walks along a linked list get one round for each node, those
-- along prev_router one for each router and one more; a walk that fails has met a router that is gone
-- or that has no predecessor, or goes in a circle. The loop over the packets of an ARP entry that is
-- given up gets two rounds for each packet and one more: an error that joins them is dropped without
-- another error. A buffer is doubled at most as
-- often as it needs bytes, and `send_all` gets one round for each byte and one more, since each call of
-- `send` takes some; the calls of `recv` are counted by an argument, as the client may send for ever.
--
-- Locks. The mutex of the router list is null, free or held (`pwospf_router_list_lock`): a part that
-- locks a null or a held mutex is `none`, as it follows a null pointer or waits for ever. It is in the
-- handlers of Pwospf, the pass of dijkstra_thread, init_rtable and init_ospf; that iface_up and
-- iface_down lock it around their last step is left out.
--
-- Not modelled: the other locks and threads, the other handlers of the command line, the choice of a web page and
-- printing, sockets and the simulator's virtual network, the reading of the files at the start, lwtcp
-- (a copy of lwIP), the arithmetic of the NAT's running averages (doubles, here a parameter type), and
-- the Verilog.
pub mod Arp
pub mod Bubble
pub mod Checksum
pub mod Cli
pub mod Dijkstra
pub mod Filters
pub mod Headers
pub mod Icmp
pub mod Iface
pub mod Ip
pub mod NatPacket
pub mod NatTable
pub mod Net
pub mod Nodes
pub mod Packet
pub mod Prelude
pub mod Pwospf
pub mod RTable
pub mod Start
pub mod State
pub mod Text
pub mod Web
