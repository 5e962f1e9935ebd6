-- ===== src/Lib.antt =====
-- Verification library of aquabsd-pkg-repo: the C libraries and command-line programs of aquaBSD
-- that the repository holds itself.
--
-- The parts, and how they interact:
-- * libiface lists the network interfaces with a datagram socket for each, and reads and writes
--   their flags by ioctl. Iface.antt has its data and one definition per function of
--   packages/aquabsd.alps/libiface/src/libiface.c (iface_list, iface_free, iface_get_flags,
--   iface_set_flags, iface_get_inet, iface_error_str, and the static ones), with the types of
--   packages/aquabsd.alps/libiface-dev/src/iface.h in Iface/Types. Iface/Listing has the induction
--   over the loop of iface_list that Iface/Names and Iface/Sockets instantiate; Iface/Flags is
--   about flag words, Iface/Places about the flags of iface_flag_t one by one, and Iface/Refine has
--   an abstract interface, a set of flags, that calls in any order refine.
-- * iface is the program over libiface: IfaceTool.antt models
--   packages/aquabsd.alps/iface/src/iface.c, IfaceTool/FlagWord, Options and Several the word in
--   which it collects flags, IfaceTool/Letters its options -a and -r, IfaceTool/Find its search for
--   an interface, IfaceTool/Stat the list that it prints. IfaceTool/Parsing, Acting and Ending
--   follow main from the options to the end, and IfaceTool/Whole from the words of the command
--   line, with any number of -a and -r, to the flags that are written, IfaceTool/Printed to the
--   lines that are printed; IfaceTool/Dangling is about an array that has been moved.
-- * kld lists, loads and unloads kernel modules: Kld.antt, Kld/Listing, Kld/Load, Kld/Unload and
--   Kld/Main model packages/aquabsd.alps/kld/src/kld.c, by action and with one definition per
--   function and for each part of a long one; do_stat, do_load and do_unload are stat_action,
--   load_action and unload_action. Kld/Listing/Ending, Kld/Load/Ending, Kld/Unload/Ending and
--   Kld/Main/Ending say how each of them, and main, may end; Kld/Main/Loading and Unloading go from
--   the words of the command line to what the kernel is asked for, Kld/Main/Empty is about an empty
--   element of the search path, Kld/Main/Verbose about -v in front of an unload, Kld/Main/Order about
--   the order of the options, and Kld/Main/Files and Modules go to the list of the files and to that of a file's modules.
-- * libsettings gives access to the settings of the kernel by sysctl: Settings.antt (types, heap
--   and error text), Settings/Query, Settings/Listing, Settings/Search and Settings/Access model
--   packages/aquabsd.alps/libsettings/src/libsettings.c and libsettings-dev/src/settings.h.
--   Settings/Query/Types has the table of the types. Settings/Heap, Settings/Blocks, Settings/Fill
--   and Settings/Listing/Adding have the lemmas that the theorems on it share. Settings/Ownership
--   says which blocks of the heap belong to the error text and to which setting, and follows the
--   calls of a client: the children Finding, Holding, Freeing and Collecting have the operations,
--   and History the calls in any order.
-- * settings is the program over libsettings: SettingsTool.antt models
--   packages/aquabsd.alps/settings/src/settings.c; SettingsTool/Keys is about its list, and
--   SettingsTool/Showing and SettingsTool/Reading about the option -r, SettingsTool/Order about the
--   order of the options, SettingsTool/Whole about main from the words of the command line,
--   SettingsTool/Failing about the list where the kernel fails, SettingsTool/Refused about -r where
--   the value cannot be printed, and SettingsTool/Verbose, with its children, about the list with
--   -v. SettingsTool/Parsing and Ending, with its children, follow main to its end for all
--   arguments.
--
-- Base has what these share: C strings as lists of bytes with the functions of the C library that
-- the sources call (strsep, strtoul, strlcat, getopt and so on), 32-bit words with their bits, and
-- programs as functions of a state with four outcomes: a call returns, ends the process, does
-- something undefined, or is still running when the fuel is spent (Base/Prog); Base/Goes has what
-- may be said of all four, and Base/Swaps options in another order. A pointer that is used after its block was freed, a read outside an
-- array, and a `%s` of NULL are undefined.
--
-- What is not under packages/aquabsd.alps is a parameter: the records Net, Linker and Sysctl hold
-- the calls of the system and the constants of its headers. What a theorem needs of them is a
-- hypothesis (IsLawful, IsShort, HasPlaces, HasDescriptors, Keeps, IsTrusted, HasValues, Distinct,
-- HasNoEmpty, Chain, Walk, Described, Translated, HasPath), and the modules named Tests and Machine
-- have concrete systems that satisfy them.
--
-- Fuel: the lists of kld and settings_list run over chains that the kernel gives, one unit of fuel
-- for each round; more fuel than the chain is long is enough, and is what the theorems on them ask.
--
-- Not modelled: allocation that fails; what warn, err, errx and getopt add to a message; the list of
-- getifaddrs, which libiface never frees; a sysctl tree that changes while the program runs. The
-- copies of other projects (libcopyfile, libmkfs_msdos, packages/nvidia) and the scripts that build
-- packages are left out.
pub mod Base
pub mod Iface
pub mod IfaceTool
pub mod Kld
pub mod Settings
pub mod SettingsTool
